-- ===== src/SelectTimer/Interval.antt =====
-- The interval and the handler of src/SelectTimer.cpp.
use cpplib.Prelude.{
  Option-cases, Bool-cases, ◌==◌, ℕ, ◌<◌, pos, negsuc, Option, none, some, ◌≡◌, ◌⊎◌, inl, inr, refl,
  arith,
}
use cpplib.SelectTimer.{SelectTimer, register_timer_handler, get_interval, svc, expired}

-- Registering a handler either fails with -1, -2 or -3 and changes nothing, or returns 0; then the
-- timer calls this handler when the time is up, its interval is the one given, with less than a
-- second of microseconds, and a second handler is refused with -2.
pub register_once :
    (handler : Option ℕ) (interval : ℕ) (timer : SelectTimer)
    → let (code, after) = register_timer_handler handler interval timer in
      ((after ≡ timer) × ((code ≡ negsuc 0) ⊎ (code ≡ negsuc 1) ⊎ (code ≡ negsuc 2)))
      ⊎ ((code ≡ pos 0)
          × (timer.handler ≡ none)
          × (svc expired after ≡ some (pos 0, handler))
          × (get_interval after ≡ interval)
          × (after.usec < 1_000_000)
          × ((h i : ℕ) → register_timer_handler (some h) i after ≡ (negsuc 1, after)))
unfolding register_timer_handler svc get_interval
register_once none interval timer = inl (refl, inl refl)
register_once (some h) interval timer = elim (Option-cases timer.handler) [
  | inr (old, e) ↦ inl (ground (arith, e), inr (inl (ground (arith, e))))
  | inl e ↦ elim (Bool-cases (interval == 0)) [
    | inl zero ↦ inl (ground (arith, e, zero), inr (inr (ground (arith, e, zero))))
    | inr some_time ↦ inr (
      ground (arith, e, some_time),
      e,
      ground (arith, e, some_time),
      ground (arith, e, some_time),
      ground (arith, e, some_time),
      λ g i. ground (arith, e, some_time),
    )
  ]
]

-- ===== src/Queue/Throttle.antt =====
-- The rate limit of src/TQueue.h.
pub mod Quota
use cpplib.Prelude.{
  ℕ, ◌+◌, ◌^◌, ◌≤◌, ◌<◌, pos, pos_part, neg_part, ◌-ℤ◌, ◌+ℤ◌, ◌≤ℤ◌, +ℤ_parts, -ℤ_parts, ◌≡◌, true,
  false, none, some, arith, ◌⊎◌, if◌then◌else◌,
}
use cpplib.TimeStamp.{
  to_u32, TimeStamp, to_useconds, less, greater, set_seconds, set_useconds, get_mseconds,
}
use cpplib.TimeStamp.Laws.{useconds_parts, to_useconds-minus}
use cpplib.Queue.{Pace, throttle, after_wake_up, is_idle, pause}

-- A reading of the clock after the first 1001 seconds of the epoch.
pub record IsClock (t : TimeStamp) : Type 0 where
  pub seconds_nonneg : neg_part t.seconds ≡ 0
  pub seconds_large : 1001 ≤ pos_part t.seconds
  pub micro_nonneg : neg_part t.micro_seconds ≡ 0
  pub micro_small : pos_part t.micro_seconds < 1_000_000

-- A wake-up time before the second 999 of the epoch.
pub record IsStale (t : TimeStamp) : Type 0 where
  pub early : pos_part t.seconds < 999
  pub whole : t.micro_seconds ≡ pos 0

stale_less : (t now : TimeStamp) → IsStale t → IsClock now → less t now ≡ true
unfolding less
stale_less t now h c = ground (arith, useconds_parts t, useconds_parts now)

stale_greater : (t now : TimeStamp) → IsStale t → IsClock now → greater t now ≡ false
unfolding greater
stale_greater t now h c = ground (arith, useconds_parts t, useconds_parts now)

stale_idle : (t now : TimeStamp) → IsStale t → IsClock now → is_idle t now ≡ true
unfolding is_idle
stale_idle t now h c = ground (
  arith,
  useconds_parts t,
  useconds_parts now,
  to_useconds-minus now t,
  -ℤ_parts (to_useconds now) (to_useconds t),
)

idle-IsStale :
    (t now : TimeStamp)
    → IsClock now
    → IsStale (set_useconds (set_seconds t (get_mseconds now -ℤ pos 1)) (pos 0))
unfolding set_useconds set_seconds get_mseconds
idle-IsStale t now c = ground (arith, -ℤ_parts (get_mseconds now) (pos 1))

throttle-IsStale :
    (limit : ℕ) (now : TimeStamp) (p : Pace)
    → IsStale p.wake_up
    → IsClock now
    → IsStale (throttle limit now p).wake_up
unfolding throttle after_wake_up
throttle-IsStale limit now p h c = ground (
  arith,
  stale_less p.wake_up now h c,
  stale_idle p.wake_up now h c,
  idle-IsStale p.wake_up now c,
)

throttle-last_pop :
    (limit : ℕ) (now : TimeStamp) (p : Pace)
    → IsStale p.wake_up
    → IsClock now
    → (throttle limit now p).last_pop ≡ p.last_pop
unfolding throttle after_wake_up
throttle-last_pop limit now p h c =
    ground (arith, stale_less p.wake_up now h c, stale_idle p.wake_up now h c)

-- With a wake-up time in the first 999 seconds of the epoch, a call of `pop` at a later time does
-- not pause its caller, whatever the limit, and leaves such a wake-up time behind.
pub throttle_off :
    (limit : ℕ) (now : TimeStamp) (p : Pace)
    → IsStale p.wake_up
    → IsClock p.last_pop
    → IsClock now
    → IsStale (throttle limit now p).wake_up
      × (pause limit (throttle limit now p).wake_up (throttle limit now p).last_pop ≡ none)
unfolding pause
throttle_off limit now p h e c = ground (
  arith,
  throttle-IsStale limit now p h c,
  throttle-last_pop limit now p h c,
  stale_greater (throttle limit now p).wake_up p.last_pop,
)

-- The first call of `pop` that holds an item two seconds or more behind the wake-up time of a
-- queue with a rate limit leaves a wake-up time in the first 999 seconds of the epoch.
pub throttle_idle :
    (limit : ℕ) (now : TimeStamp) (p : Pace)
    → 0 < limit
    → IsClock now
    → to_useconds p.wake_up +ℤ pos 2_000_000 ≤ℤ to_useconds now
    → IsStale (throttle limit now p).wake_up
unfolding throttle after_wake_up less is_idle
throttle_idle limit now p h c idle = ground (
  arith,
  idle-IsStale p.wake_up now c,
  to_useconds-minus now p.wake_up,
  -ℤ_parts (to_useconds now) (to_useconds p.wake_up),
  +ℤ_parts (to_useconds p.wake_up) (pos 2_000_000),
)

near_busy :
    (t now : TimeStamp) → to_useconds now ≤ℤ to_useconds t +ℤ pos 1_999_999 → is_idle t now ≡ false
unfolding is_idle
near_busy t now near = ground (
  arith,
  to_useconds-minus now t,
  -ℤ_parts (to_useconds now) (to_useconds t),
  +ℤ_parts (to_useconds t) (pos 1_999_999),
)

pause_self : (limit : ℕ) (t : TimeStamp) → pause limit t t ≡ none
unfolding pause greater
pause_self limit t = ground arith

-- The branches of a call at most 1999999 microseconds behind the wake-up time.
pub throttle_paces :
    (limit : ℕ) (now : TimeStamp) (p : Pace)
    → 0 < limit
    → p.try_cnt + 1 < 2 ^ 32
    → to_useconds now ≤ℤ to_useconds p.wake_up +ℤ pos 1_999_999
    → let q = throttle limit now p in
      ((less p.wake_up now ≡ true)
        × (limit ≤ p.try_cnt + 1)
        × (q.try_cnt ≡ 0)
        × (q.wake_up ≡ record { seconds = now.seconds +ℤ pos 1; micro_seconds = pos 0 })
        × (pause limit q.wake_up q.last_pop ≡ none))
      ⊎ ((less p.wake_up now ≡ true)
          × (p.try_cnt + 1 < limit)
          × (q ≡ record p { try_cnt = p.try_cnt + 1 }))
      ⊎ ((less p.wake_up now ≡ false)
          × (q.try_cnt ≡ p.try_cnt + 1)
          × (q.wake_up ≡ p.wake_up)
          × (pause limit q.wake_up q.last_pop ≡ (
              if less now p.wake_up
              then some (to_u32 (to_useconds p.wake_up -ℤ to_useconds now))
              else none)))
unfolding throttle after_wake_up set_seconds set_useconds less pause greater
throttle_paces limit now p h fits near = ground (
  arith,
  near_busy p.wake_up now near,
  pause_self limit (set_useconds (set_seconds p.wake_up (now.seconds +ℤ pos 1)) (pos 0)),
  to_useconds-minus p.wake_up now,
)

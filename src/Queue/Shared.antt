-- ===== src/Queue/Shared.antt =====
-- The methods of src/TQueue.h by their accesses to the queue, called by threads in any interleaving
-- under the mutex and the condition variable of the object. The readings of the clock that a call
-- gets are arguments of it.
pub mod Fifo
pub mod Served
use cpplib.Prelude.{
  List-cases, Option, none, some, List, [], ◌∷◌, ◌++◌, ℤ, pos, ◌-ℤ◌, ℕ, if◌then◌else◌, ◌≡◌, refl,
  arith, inl, inr, ◌⊎◌, Bool-cases, Option-cases, Bool, true, false,
}
use cpplib.TimeStamp.{TimeStamp}
use cpplib.ThreadMutex.{Access, Next, goes_on, waits, returns, Signal, quiet, broadcast}
use cpplib.ThreadMutex.Serial.{rest_of}
use cpplib.Queue.{TQueue, Pace, throttle, empty, full, take_front, pop, pop_timeout, push}

-- The next access of a thread: the loop of `pop`; the first and the second test of `pop` with a
-- timeout; `front`, `pop_front` and the rate limit; the test of `push`, `push_back` and `broadcast`;
-- and the end of the scope of the guard, with a code and an item.
pub data Pc (A : Type 0) : Type 0 where
  popping : TimeStamp → TimeStamp → Pc A
  timing : TimeStamp → TimeStamp → Pc A
  testing : TimeStamp → TimeStamp → Pc A
  reading : TimeStamp → TimeStamp → Pc A
  dropping : TimeStamp → TimeStamp → A → Pc A
  pacing : TimeStamp → TimeStamp → A → Pc A
  pushing : A → Pc A
  adding : A → Pc A
  telling : Pc A
  leaving : ℤ → Option A → Pc A

-- The code that a call returns, and the item that it gives.
abbrev pub Reply : Type 0 → Type 0
Reply A = Option (ℤ × Option A)

module _ {A : Type 0} where
  abbrev pub IsMethod : Pc A → Type 0
  IsMethod (popping entry now) = Unit
  IsMethod (timing entry now) = Unit
  IsMethod (pushing item) = Unit
  IsMethod (testing entry now) = ⊥
  IsMethod (reading entry now) = ⊥
  IsMethod (dropping entry now item) = ⊥
  IsMethod (pacing entry now item) = ⊥
  IsMethod (adding item) = ⊥
  IsMethod telling = ⊥
  IsMethod (leaving code item) = ⊥

  abbrev pub at : TQueue A → Signal → Next (Pc A) (Reply A) → Access (TQueue A) (Pc A) (Reply A)
  at q c next = record { object = q; signal = c; next = next }

  abbrev read : TimeStamp → TimeStamp → List A → Next (Pc A) (Reply A)
  read entry now [] = returns none
  read entry now (item ∷ rest) = goes_on (dropping entry now item)

  abbrev drop : TimeStamp → TimeStamp → A → List A → TQueue A → Access (TQueue A) (Pc A) (Reply A)
  drop entry now item [] q = at q quiet (returns none)
  drop entry now item (x ∷ rest) q =
      at (record q { lst_item = rest }) quiet (goes_on (pacing entry now item))

  abbrev pace : TimeStamp → TimeStamp → TQueue A → TQueue A
  pace entry now q =
      let p =
        throttle q.rate_limit now
          (record { try_cnt = q.try_pop_cnt; wake_up = q.wake_up_ts; last_pop = entry }) in
      record q { wake_up_ts = p.wake_up; try_pop_cnt = p.try_cnt }

  -- `front` and `pop_front` of an empty list are undefined: `returns none`.
  unfoldable pub access : Pc A → TQueue A → Access (TQueue A) (Pc A) (Reply A)
  access (popping entry now) q =
      at q quiet
        (if empty q then waits (λ code. popping entry now) else goes_on (reading entry now))
  access (timing entry now) q =
      at q quiet
        (if empty q then waits (λ code. testing entry now) else goes_on (testing entry now))
  access (testing entry now) q =
      at q quiet
        (if empty q then goes_on (leaving (pos 0 -ℤ pos 1) none) else goes_on (reading entry now))
  access (reading entry now) q = at q quiet (read entry now q.lst_item)
  access (dropping entry now item) q = drop entry now item q.lst_item q
  access (pacing entry now item) q =
      at (pace entry now q) quiet (goes_on (leaving (pos 0) (some item)))
  access (pushing item) q =
      at q quiet (if full q then goes_on (leaving (pos 0 -ℤ pos 1) none) else goes_on (adding item))
  access (adding item) q =
      at (record q { lst_item = q.lst_item ++ item ∷ [] }) quiet (goes_on telling)
  access telling q = at q broadcast (goes_on (leaving (pos 0) none))
  access (leaving code item) q = at q quiet (returns (some (code, item)))

  -- What a `pop` of the model without threads leaves.
  abbrev outcome :
      TQueue A
      → Next (Pc A) (Reply A)
      → ℤ
      → Option (A × TQueue A × TimeStamp)
      → TQueue A × Next (Pc A) (Reply A)
  outcome q otherwise code none = (q, otherwise)
  outcome q otherwise code (some (item, after, last)) = (after, returns (some (code, some item)))

  abbrev rest_of_drop :
      TimeStamp → TimeStamp → A → List A → TQueue A → TQueue A × Next (Pc A) (Reply A)
  rest_of_drop entry now item [] q = (q, returns none)
  rest_of_drop entry now item (x ∷ rest) q =
      (pace entry now (record q { lst_item = rest }), returns (some (pos 0, some item)))

  abbrev tested :
      TQueue A → ℤ × Option (A × TQueue A × TimeStamp) → TQueue A × Next (Pc A) (Reply A)
  tested q (code, result) = outcome q (returns (some (code, none))) code result

  -- The turns, by the methods on whole queues.
  unfoldable pub turn : Pc A → TQueue A → TQueue A × Next (Pc A) (Reply A)
  turn (popping entry now) q =
      outcome q (waits (λ code. popping entry now)) (pos 0) (pop q entry now)
  turn (timing entry now) q =
      if empty q then (q, waits (λ code. testing entry now)) else tested q (pop_timeout q entry now)
  turn (testing entry now) q = tested q (pop_timeout q entry now)
  turn (reading entry now) q = outcome q (returns none) (pos 0) (take_front q.lst_item q entry now)
  turn (dropping entry now item) q = rest_of_drop entry now item q.lst_item q
  turn (pacing entry now item) q = (pace entry now q, returns (some (pos 0, some item)))
  turn (pushing item) q = let (code, after) = push q item in (after, returns (some (code, none)))
  turn (adding item) q =
      (record q { lst_item = q.lst_item ++ item ∷ [] }, returns (some (pos 0, none)))
  turn telling q = (q, returns (some (pos 0, none)))
  turn (leaving code item) q = (q, returns (some (code, item)))

  pub unrolls :
      (p : Pc A) (q : TQueue A) → turn p q ≡ rest_of turn (access p q).object (access p q).next
  unfolding turn access pop pop_timeout push empty full take_front
  unrolls (popping entry now) q = elim (List-cases q.lst_item) [
    | inl e ↦ rw e refl
    | inr (x, rest, e) ↦ rw e refl
  ]
  unrolls (timing entry now) q = elim (List-cases q.lst_item) [
    | inl e ↦ rw e refl
    | inr (x, rest, e) ↦ rw e refl
  ]
  unrolls (testing entry now) q = elim (List-cases q.lst_item) [
    | inl e ↦ rw e refl
    | inr (x, rest, e) ↦ rw e refl
  ]
  unrolls (reading entry now) q = elim (List-cases q.lst_item) [
    | inl e ↦ rw e refl
    | inr (x, rest, e) ↦ rw e refl
  ]
  unrolls (dropping entry now item) q = elim (List-cases q.lst_item) [
    | inl e ↦ rw e refl
    | inr (x, rest, e) ↦ rw e refl
  ]
  unrolls (pacing entry now item) q = refl
  unrolls (pushing item) q = elim (Bool-cases (full q)) [ inl e ↦ rw e refl | inr e ↦ rw e refl ]
  unrolls (adding item) q = refl
  unrolls telling q = refl
  unrolls (leaving code item) q = refl

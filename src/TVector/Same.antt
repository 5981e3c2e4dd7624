-- ===== src/TVector/Same.antt =====
-- src/TVector.h and src/TQueue.h implement one interface: from equal states each operation gives
-- equal results and equal states.
use cpplib.Prelude.{ℕ, ◌≡◌, refl, Option, none, some, List, [], ◌∷◌, arith}
use cpplib.TimeStamp.{TimeStamp}
use cpplib.Queue
use cpplib.Queue.{TQueue}
use cpplib.TVector.{TVector, Pace, limit_rate, size, empty, full, pop, pop_timeout, pause, push}

module _ {ℓ} {A : Type ℓ} where
  -- The queue with the same fields.
  abbrev pub as_queue : TVector A → TQueue A
  as_queue v = record {
    lst_item = v.lst_item;
    max_size = v.max_size;
    wake_up_ts = v.wake_up_ts;
    rate_limit = v.rate_limit;
    try_pop_cnt = v.try_pop_cnt;
  }

  abbrev pub as_popped : Option (A × TVector A × TimeStamp) → Option (A × TQueue A × TimeStamp)
  as_popped none = none
  as_popped (some (item, v, last)) = some (item, as_queue v, last)

abbrev as_pace : Pace → Queue.Pace
as_pace p = record { try_cnt = p.try_pop_cnt; wake_up = p.wake_up_ts; last_pop = p.last_pop_ts }

limit_rate-throttle :
    (limit : ℕ) (now : TimeStamp) (p : Pace)
    → as_pace (limit_rate limit now p) ≡ Queue.throttle limit now (as_pace p)
unfolding limit_rate Queue.throttle Queue.after_wake_up
limit_rate-throttle limit now p = ground arith

module _ {ℓ} {A : Type ℓ} where
  pop-Same :
      (items : List A) (v : TVector A) (entry now : TimeStamp)
      → items ≡ v.lst_item
      → as_popped (pop v entry now) ≡ Queue.take_front items (as_queue v) entry now
  unfolding pop Queue.take_front
  pop-Same [] v entry now e = rw (← e)
  pop-Same (x ∷ xs) v entry now e = rw (← e) (
      cc (
        limit_rate-throttle v.rate_limit now
          (record { wake_up_ts = v.wake_up_ts; try_pop_cnt = v.try_pop_cnt; last_pop_ts = entry })))

  -- At equal states every operation of the two classes returns the same, the calls of `pop` at
  -- equal clock readings, and leaves equal states behind.
  pub operations_Same :
      (v : TVector A) (item : A) (entry now last : TimeStamp)
      → (size v ≡ Queue.size (as_queue v))
        × (empty v ≡ Queue.empty (as_queue v))
        × (full v ≡ Queue.full (as_queue v))
        × (as_popped (pop v entry now) ≡ Queue.pop (as_queue v) entry now)
        × ((pop_timeout v entry now).0 ≡ (Queue.pop_timeout (as_queue v) entry now).0)
        × (as_popped (pop_timeout v entry now).1 ≡ (Queue.pop_timeout (as_queue v) entry now).1)
        × ((push v item).0 ≡ (Queue.push (as_queue v) item).0)
        × (as_queue (push v item).1 ≡ (Queue.push (as_queue v) item).1)
        × (pause v last ≡ Queue.pause v.rate_limit v.wake_up_ts last)
  unfolding size empty full pop_timeout push pause Queue.size Queue.empty Queue.full Queue.pop
      Queue.pop_timeout Queue.push Queue.pause
  operations_Same v item entry now last =
      let same = pop-Same v.lst_item v entry now refl in
      (refl, refl, refl, same, ground arith, ground (arith, same), ground arith, ground arith, refl)

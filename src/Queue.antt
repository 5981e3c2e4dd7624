-- ===== src/Queue.antt =====
-- src/TQueue.h: a bounded queue with a rate limit on `pop`. Each operation runs under the
-- queue's mutex, so it is a function on the state; the clock readings of `pop` are arguments.
-- A waiting `pop` is one whose turn has no item: it leaves the queue as it is.
pub mod Throttle
pub mod History
pub mod Shared
use cpplib.Prelude.{
  ℕ, ◌+◌, ℤ, pos, ◌-ℤ◌, ◌+ℤ◌, ltb_ℤ, Bool, true, false, ◌&&◌, Option, none, some, List, [], ◌∷◌,
  ◌++◌, ltb, leb, if◌then◌else◌, length, u32,
}
use cpplib.TimeStamp.{
  to_u32, TimeStamp, minus, less, greater, to_useconds, div_ℤ, get_mseconds, set_seconds,
  set_useconds,
}

pub record TQueue {ℓ} (A : Type ℓ) : Type ℓ where
  pub lst_item : List A
  pub max_size : ℕ
  pub wake_up_ts : TimeStamp
  pub rate_limit : ℕ
  pub try_pop_cnt : ℕ

-- The part of the state that the rate limit works on, with the caller's `last_pop_ts`.
pub record Pace : Type 0 where
  pub try_cnt : ℕ
  pub wake_up : TimeStamp
  pub last_pop : TimeStamp

-- `delta_cond_wait.ToUSeconds()/1000000 > 1`
is_idle : TimeStamp → TimeStamp → Bool
is_idle wake now = ltb_ℤ (pos 1) (div_ℤ (to_useconds (minus now wake)) 1_000_000)

-- The branch `_wake_up_ts < pop_ts`, with `try_cnt` already counted up.
unfoldable pub after_wake_up : ℕ → TimeStamp → Pace → Pace
unfolding is_idle
after_wake_up rate_limit now p =
    if is_idle p.wake_up now
    then record {
      try_cnt = 1;
      wake_up = set_useconds (set_seconds p.wake_up (get_mseconds now -ℤ pos 1)) (pos 0);
      last_pop = p.last_pop;
    }
    else if leb rate_limit p.try_cnt
    then (let next_second = set_useconds (set_seconds p.wake_up (now.seconds +ℤ pos 1)) (pos 0) in
        record { try_cnt = 0; wake_up = next_second; last_pop = next_second })
    else p

-- What `pop` does to the pace once it holds an item, at the clock reading `now`.
unfoldable pub throttle : ℕ → TimeStamp → Pace → Pace
throttle rate_limit now p =
    let q : Pace = record p { try_cnt = u32 (p.try_cnt + 1) } in
    if ltb 0 rate_limit
    then if less p.wake_up now then after_wake_up rate_limit now q else record q { last_pop = now }
    else p

-- The pause behind the lock: `usleep` is called with this many microseconds, or not at all. Its
-- parameter has 32 bits, and the `long` is converted to it.
unfoldable pub pause : ℕ → TimeStamp → TimeStamp → Option ℕ
pause rate_limit wake last =
    if ltb 0 rate_limit && greater wake last
    then some (to_u32 (to_useconds (minus wake last)))
    else none

module _ {ℓ} {A : Type ℓ} where
  -- `init` has the time at which the object is built: the default of `_wake_up_ts`.
  unfoldable pub init : ℕ → ℕ → TimeStamp → TQueue A
  init max_size rate_limit now = record {
    lst_item = [];
    max_size = max_size;
    wake_up_ts = now;
    rate_limit = rate_limit;
    try_pop_cnt = 0;
  }

  unfoldable pub size : TQueue A → ℕ
  size q = u32 (length q.lst_item)

  unfoldable pub empty : TQueue A → Bool
  empty q = elim q.lst_item [ [] ↦ true | _ ∷ _ ↦ false ]

  unfoldable pub full : TQueue A → Bool
  full q = ltb 0 q.max_size && ltb q.max_size (length q.lst_item)

  -- `entry` is the reading at the call, `now` the one with the item in hand. The results are the
  -- item, the new state and the caller's `last_pop_ts`.
  unfoldable pub take_front :
      List A → TQueue A → TimeStamp → TimeStamp → Option (A × TQueue A × TimeStamp)
  take_front [] q entry now = none
  take_front (item ∷ rest) q entry now =
      let p =
        throttle q.rate_limit now
          (record { try_cnt = q.try_pop_cnt; wake_up = q.wake_up_ts; last_pop = entry }) in
      some (
        item,
        record q { lst_item = rest; wake_up_ts = p.wake_up; try_pop_cnt = p.try_cnt },
        p.last_pop,
      )

  -- One turn of `pop` under the lock: `none` is a thread that waits on.
  unfoldable pub pop : TQueue A → TimeStamp → TimeStamp → Option (A × TQueue A × TimeStamp)
  unfolding take_front
  pop q entry now = take_front q.lst_item q entry now

  -- `pop` with a timeout, from the end of its one wait: -1 if there is still no item.
  unfoldable pub pop_timeout :
      TQueue A → TimeStamp → TimeStamp → ℤ × Option (A × TQueue A × TimeStamp)
  unfolding pop empty
  pop_timeout q entry now = if empty q then (pos 0 -ℤ pos 1, none) else (pos 0, pop q entry now)

  -- The result is -1 on a full queue.
  unfoldable pub push : TQueue A → A → ℤ × TQueue A
  push q item =
      if ltb 0 q.max_size && ltb q.max_size (length q.lst_item)
      then (pos 0 -ℤ pos 1, q)
      else (pos 0, record q { lst_item = q.lst_item ++ item ∷ [] })

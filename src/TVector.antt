-- ===== src/TVector.antt =====
-- src/TVector.h: the queue of src/TQueue.h once more, over a vector: the front item is read and
-- then erased at the begin iterator.
pub mod Same
use cpplib.Prelude.{
  ℕ, zero, suc, ◌+◌, ℤ, pos, ◌-ℤ◌, ◌+ℤ◌, ltb_ℤ, Bool, true, false, ◌&&◌, Option, none, some, List,
  [], ◌∷◌, ◌++◌, ltb, leb, if◌then◌else◌, length, u32, get_elem?,
}
use cpplib.TimeStamp.{
  to_u32, TimeStamp, minus, less, greater, to_useconds, div_ℤ, get_mseconds, set_seconds,
  set_useconds,
}

-- The fields `_wake_up_ts` and `_try_pop_cnt` with the caller's `last_pop_ts`.
pub record Pace : Type 0 where
  pub wake_up_ts : TimeStamp
  pub try_pop_cnt : ℕ
  pub last_pop_ts : TimeStamp

-- The block `if(_rate_limit > 0)` of both `pop` methods.
limit_rate : ℕ → TimeStamp → Pace → Pace
limit_rate rate_limit pop_ts p =
    let cnt = u32 (p.try_pop_cnt + 1) in
    let delta = minus pop_ts p.wake_up_ts in
    let restart = set_useconds (set_seconds p.wake_up_ts (get_mseconds pop_ts -ℤ pos 1)) (pos 0) in
    let next = set_useconds (set_seconds p.wake_up_ts (pop_ts.seconds +ℤ pos 1)) (pos 0) in
    if ltb 0 rate_limit
    then (if less p.wake_up_ts pop_ts
        then (if ltb_ℤ (pos 1) (div_ℤ (to_useconds delta) 1_000_000)
            then record p { wake_up_ts = restart; try_pop_cnt = 1 }
            else if leb rate_limit cnt
            then record { wake_up_ts = next; try_pop_cnt = 0; last_pop_ts = next }
            else record p { try_pop_cnt = cnt })
        else record p { try_pop_cnt = cnt; last_pop_ts = pop_ts })
    else p

module _ {ℓ} {A : Type ℓ} where
  -- `erase` at a position.
  erase : List A → ℕ → List A
  erase [] i = []
  erase (x ∷ xs) zero = xs
  erase (x ∷ xs) (suc i) = x ∷ erase xs i

pub record TVector {ℓ} (A : Type ℓ) : Type ℓ where
  pub lst_item : List A
  pub max_size : ℕ
  pub wake_up_ts : TimeStamp
  pub rate_limit : ℕ
  pub try_pop_cnt : ℕ

module _ {ℓ} {A : Type ℓ} where
  pub size : TVector A → ℕ
  size v = u32 (length v.lst_item)

  pub empty : TVector A → Bool
  empty v = elim v.lst_item [ [] ↦ true | _ ∷ _ ↦ false ]

  pub full : TVector A → Bool
  full v = ltb 0 v.max_size && ltb v.max_size (length v.lst_item)

  -- One turn of `pop` under the lock: `none` is a thread that waits on.
  pub pop : TVector A → TimeStamp → TimeStamp → Option (A × TVector A × TimeStamp)
  unfolding erase
  pop v entry pop_ts = elim (get_elem? v.lst_item 0) [
    | none ↦ none
    | some item ↦
        let p = limit_rate v.rate_limit pop_ts (record {
          wake_up_ts = v.wake_up_ts;
          try_pop_cnt = v.try_pop_cnt;
          last_pop_ts = entry;
        }) in
        some (
          item,
          record v {
            lst_item = erase v.lst_item 0;
            wake_up_ts = p.wake_up_ts;
            try_pop_cnt = p.try_pop_cnt;
          },
          p.last_pop_ts,
        )
  ]

  -- From the end of the one wait: -1 if there is still no item.
  pub pop_timeout : TVector A → TimeStamp → TimeStamp → ℤ × Option (A × TVector A × TimeStamp)
  pop_timeout v entry pop_ts =
      if empty v then (pos 0 -ℤ pos 1, none) else (pos 0, pop v entry pop_ts)

  -- The pause behind the lock, as the `useconds_t` of 32 bits that `usleep` gets.
  pub pause : TVector A → TimeStamp → Option ℕ
  pause v last =
      if ltb 0 v.rate_limit && greater v.wake_up_ts last
      then some (to_u32 (to_useconds (minus v.wake_up_ts last)))
      else none

  pub push : TVector A → A → ℤ × TVector A
  push v item =
      if ltb 0 v.max_size && ltb v.max_size (length v.lst_item)
      then (pos 0 -ℤ pos 1, v)
      else (pos 0, record v { lst_item = v.lst_item ++ item ∷ [] })

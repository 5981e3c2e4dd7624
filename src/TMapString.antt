-- ===== src/TMapString.antt =====
-- src/TMapString.h: a map from texts with a condition variable. The lock is held but for the
-- waits, so a method is a function on the entries from one wait to the next; the result of a wait
-- is an argument.
pub mod Pushed
pub mod Front
pub mod Shared
use cpplib.Prelude.{
  Bool, true, false, not, Option, none, some, List, [], ◌∷◌, ℤ, pos, negsuc, ℕ, length, u32, eq_ℤ,
  Text, text_key, if◌then◌else◌,
}
use cpplib.OrderedMap

abbrev pub Items : Type 0 → Type 0
Items T = List (Text × T)

-- Where a method stands after a turn: it waits on, or it has returned with a code, the item if one
-- was written to the caller, and the entries.
pub data Turn (T : Type 0) : Type 0 where
  waits : Items T → Turn T
  returned : ℤ → Option T → Items T → Turn T

module _ {T : Type 0} where
  unfoldable pub size : Items T → ℕ
  size items = u32 (length items)

  unfoldable pub empty : Items T → Bool
  empty items = elim items [ [] ↦ true | _ ∷ _ ↦ false ]

  -- One round of the loop of `pop(key, item)` on an empty map: `wait_code` is the result of
  -- `_cond.wait()`.
  unfoldable pub wait_round : ℤ → Turn T
  wait_round wait_code = if eq_ℤ wait_code (pos 0) then waits [] else returned (negsuc 0) none []

  unfoldable pub take_key : Text → Items T → Turn T
  take_key key items = elim (OrderedMap.find key items) [
    | none ↦ returned (negsuc 1) none items
    | some item ↦ returned (pos 0) (some item) (OrderedMap.erase key items)
  ]

  unfoldable pub pop : Text → ℤ → Items T → Turn T
  unfolding wait_round take_key
  pop key wait_code [] = wait_round wait_code
  pop key wait_code (e ∷ items) = take_key key (e ∷ items)

  -- `pop(key, item, timeout)`: `before` are the entries at the call, `after` those at the end of
  -- its one wait, whose result is `wait_code`.
  unfoldable pub pop_timeout : Text → ℤ → Items T → Items T → Turn T
  pop_timeout key wait_code before after = elim (OrderedMap.find key before) [
    | some item ↦ returned (pos 0) (some item) (OrderedMap.erase key before)
    | none ↦ elim (OrderedMap.find key after) [
      | some item ↦ returned (pos 0) (some item) (OrderedMap.erase key after)
      | none ↦ returned wait_code none after
    ]
  ]

  unfoldable pub pop_front : ℤ → Items T → Turn T
  unfolding wait_round
  pop_front wait_code [] = wait_round wait_code
  pop_front wait_code ((k, item) ∷ items) = returned (pos 0) (some item) items

  unfoldable pub push : Text → T → Items T → ℤ × Items T
  push key item items = (pos 0, OrderedMap.insert key item items)

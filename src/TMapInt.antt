-- ===== src/TMapInt.antt =====
-- src/TMapInt.h: a map from `int` under a mutex. Each method holds the lock from its first line to
-- its return, so it is a function on the entries.
pub mod Spec
pub mod Histories
use cpplib.Prelude.{
  Bool, true, false, Option, none, some, List, [], ◌∷◌, ℤ, ℕ, length, u32, int_key,
}
use cpplib.OrderedMap

module _ {ℓ} {T : Type ℓ} where
  unfoldable pub size : List (ℤ × T) → ℕ
  size items = u32 (length items)

  unfoldable pub empty : List (ℤ × T) → Bool
  empty items = elim items [ [] ↦ true | _ ∷ _ ↦ false ]

  -- The result and `value`, which stays unset on a missing key.
  unfoldable pub get : ℤ → List (ℤ × T) → Bool × Option T
  get key items = elim (OrderedMap.find key items) [
    | none ↦ (false, none)
    | some value ↦ (true, some value)
  ]

  unfoldable pub insert : ℤ → T → List (ℤ × T) → List (ℤ × T)
  insert key value items = OrderedMap.insert key value items

  unfoldable pub del : ℤ → List (ℤ × T) → List (ℤ × T)
  del key items = elim (OrderedMap.find key items) [
    | none ↦ items
    | some _ ↦ OrderedMap.erase key items
  ]

  unfoldable pub clear : List (ℤ × T) → List (ℤ × T)
  clear items = []

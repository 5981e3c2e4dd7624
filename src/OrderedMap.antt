-- ===== src/OrderedMap.antt =====
-- `std::map`, as far as the sources use it: entries in ascending order of their keys, in the list
-- that an iterator from `begin()` walks through.
pub mod Laws
pub mod Order
pub mod Extensional
use cpplib.Prelude.{
  Bool, true, false, Option, none, some, List, [], ◌∷◌, Key, if◌then◌else◌, Option-cases,
}

module _ {ℓ} {K : Type 0} {V : Type ℓ} ⦃key : Key K⦄ where
  unfoldable pub find : K → List (K × V) → Option V
  find k [] = none
  find k ((j, v) ∷ m) = let rest = find k m in if key.eq j k then some v else rest

  -- A new entry at its place in the order.
  unfoldable pub place : K → V → List (K × V) → List (K × V)
  place k v [] = (k, v) ∷ []
  place k v ((j, w) ∷ m) = if key.less k j then (k, v) ∷ (j, w) ∷ m else (j, w) ∷ place k v m

  -- The value of a key that is there.
  unfoldable pub replace : K → V → List (K × V) → List (K × V)
  replace k v [] = []
  replace k v ((j, w) ∷ m) = if key.eq j k then (j, v) ∷ replace k v m else (j, w) ∷ replace k v m

  -- `insert` keeps the entry that is there.
  unfoldable pub insert : K → V → List (K × V) → List (K × V)
  insert k v m = elim (find k m) [ none ↦ place k v m | some w ↦ m ]

  -- `m[k] = v`
  unfoldable pub assign : K → V → List (K × V) → List (K × V)
  assign k v m = elim (find k m) [ none ↦ place k v m | some w ↦ replace k v m ]

  unfoldable pub erase : K → List (K × V) → List (K × V)
  erase k [] = []
  erase k ((j, v) ∷ m) = if key.eq j k then erase k m else (j, v) ∷ erase k m

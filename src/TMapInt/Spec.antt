-- ===== src/TMapInt/Spec.antt =====
-- The map of src/TMapInt.h as a partial function from keys.
use cpplib.Prelude.{
  Bool, true, false, Option, none, some, List, [], ℤ, if◌then◌else◌, ◌≡◌, refl, arith, Option-cases,
  inl, inr, eq_ℤ, eq_ℤ_iff, int_key,
}
use cpplib.OrderedMap
use cpplib.OrderedMap.{find}
use cpplib.OrderedMap.Laws.{find-insert, find-erase}
use cpplib.TMapInt.{get, insert, del, clear}

module _ {ℓ} {T : Type ℓ} where
  abbrev pub to_result : Option T → Bool × Option T
  to_result none = (false, none)
  to_result (some value) = (true, some value)

  pub get-find : (key : ℤ) (items : List (ℤ × T)) → get key items ≡ to_result (find key items)
  unfolding get
  get-find key items = ground arith

  pub find-del :
      (key j : ℤ) (items : List (ℤ × T))
      → find j (del key items) ≡ (if eq_ℤ key j then none else find j items)
  unfolding del
  find-del key j items = elim (Option-cases (find key items)) [
    | inl e ↦ ground (arith, e, eq_ℤ_iff key j)
    | inr (v, e) ↦ ground (arith, e, find-erase key j items)
  ]

  -- What `get` returns for any key after each of the methods that write: `insert` keeps the value
  -- of a key that is there, and `del` and `clear` remove.
  pub get-writes :
      (key j : ℤ) (value : T) (items : List (ℤ × T))
      → (get j (insert key value items) ≡ (
          if eq_ℤ key j
          then (if (get key items).0 then get key items else (true, some value))
          else get j items))
        × (get j (del key items) ≡ (if eq_ℤ key j then (false, none) else get j items))
        × (get j (clear items) ≡ (false, none))
  unfolding insert clear
  get-writes key j value items = (
    ground (
      arith,
      get-find j (OrderedMap.insert key value items),
      get-find key items,
      get-find j items,
      find-insert key j value items,
    ),
    ground (arith, get-find j (del key items), get-find j items, find-del key j items),
    ground (arith, get-find j [], nothing j),
  )
    where
      nothing : (j : ℤ) → find {V = T} j [] ≡ none
      nothing j = unfold find in refl

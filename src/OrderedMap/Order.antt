-- ===== src/OrderedMap/Order.antt =====
-- The keys stay in ascending order, so `begin()` is the entry of the least key.
use cpplib.Prelude.{true, none, List, [], ◌∷◌, Key, ◌≡◌, arith, Option-cases, Bool-cases, inl, inr}
use cpplib.OrderedMap.{find, place, replace, insert, assign, erase}

module _ {ℓ} {K : Type 0} {V : Type ℓ} ⦃key : Key K⦄ where
  -- Every key of the map is greater.
  abbrev pub Above : K → List (K × V) → Type 0
  Above k [] = Unit
  Above k ((j, v) ∷ m) = (key.less k j ≡ true) × Above k m

  abbrev pub IsAscending : List (K × V) → Type 0
  IsAscending [] = Unit
  IsAscending ((k, v) ∷ m) = Above k m × IsAscending m

  pub Above-trans : (i k : K) (m : List (K × V)) → key.less i k ≡ true → Above k m → Above i m
  Above-trans i k [] h a = tt
  Above-trans i k ((j, v) ∷ m) h a = (key.less_trans i k j h a.0, Above-trans i k m h a.1)

  Above-place :
      (i k : K) (v : V) (m : List (K × V)) → key.less i k ≡ true → Above i m → Above i (place k v m)
  unfolding place
  Above-place i k v [] h a = (h, tt)
  Above-place i k v ((j, w) ∷ m) h a = ground (arith, h, a, Above-place i k v m h a.1)

  place-IsAscending :
      (k : K) (v : V) (m : List (K × V))
      → find k m ≡ none
      → IsAscending m
      → IsAscending (place k v m)
  unfolding place find
  place-IsAscending k v [] e a = (tt, tt)
  place-IsAscending k v ((j, w) ∷ m) e a = elim (Bool-cases (key.less k j)) [
    | inl lt ↦ rw lt ((lt, Above-trans k j m lt a.0), a)
    | inr ge ↦ rw ge (
      Above-place j k v m
          (ground (arith, e, key.less_total k j, key.eq_iff k j, key.eq_iff j k, ge)) a.0,
      place-IsAscending k v m (ground (arith, e)) a.1,
    )
  ]

  Above-replace : (i k : K) (v : V) (m : List (K × V)) → Above i m → Above i (replace k v m)
  unfolding replace
  Above-replace i k v [] a = tt
  Above-replace i k v ((j, w) ∷ m) a = ground (arith, a, Above-replace i k v m a.1)

  pub replace-IsAscending :
      (k : K) (v : V) (m : List (K × V)) → IsAscending m → IsAscending (replace k v m)
  unfolding replace
  replace-IsAscending k v [] a = tt
  replace-IsAscending k v ((j, w) ∷ m) a =
      ground (arith, a, Above-replace j k v m a.0, replace-IsAscending k v m a.1)

  Above-erase : (i k : K) (m : List (K × V)) → Above i m → Above i (erase k m)
  unfolding erase
  Above-erase i k [] a = tt
  Above-erase i k ((j, w) ∷ m) a = ground (arith, a, Above-erase i k m a.1)

  pub erase-IsAscending : (k : K) (m : List (K × V)) → IsAscending m → IsAscending (erase k m)
  unfolding erase
  erase-IsAscending k [] a = tt
  erase-IsAscending k ((j, w) ∷ m) a =
      ground (arith, a, Above-erase j k m a.0, erase-IsAscending k m a.1)

  pub insert-IsAscending :
      (k : K) (v : V) (m : List (K × V)) → IsAscending m → IsAscending (insert k v m)
  unfolding insert
  insert-IsAscending k v m a = elim (Option-cases (find k m)) [
    | inl e ↦ rw (e, insert) (place-IsAscending k v m e a)
    | inr (w, e) ↦ rw (e, insert) a
  ]

  pub assign-IsAscending :
      (k : K) (v : V) (m : List (K × V)) → IsAscending m → IsAscending (assign k v m)
  unfolding assign
  assign-IsAscending k v m a = elim (Option-cases (find k m)) [
    | inl e ↦ rw (e, assign) (place-IsAscending k v m e a)
    | inr (w, e) ↦ rw (e, assign) (replace-IsAscending k v m a)
  ]

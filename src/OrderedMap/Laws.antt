-- ===== src/OrderedMap/Laws.antt =====
-- Lookup after each operation, and the order of the keys.
use cpplib.Prelude.{
  false, none, some, List, [], ◌∷◌, Key, if◌then◌else◌, ◌≡◌, refl, arith, Option-cases, inl, inr,
  ◌⊎◌,
}
use cpplib.OrderedMap.{find, place, replace, insert, assign, erase}

module _ {ℓ} {K : Type 0} {V : Type ℓ} ⦃key : Key K⦄ where
  find-place :
      (k j : K) (v : V) (m : List (K × V))
      → find k m ≡ none
      → find j (place k v m) ≡ (if key.eq k j then some v else find j m)
  unfolding find place
  find-place k j v [] e = refl
  find-place k j v ((i, w) ∷ m) e =
      ground (arith, find-place k j v m, key.eq_iff k j, key.eq_iff i j, key.eq_iff i k)

  pub find-replace :
      (k j : K) (v : V) (m : List (K × V))
      → find j (replace k v m)
        ≡ (if key.eq k j then (elim (find k m) [ none ↦ none | some w ↦ some v ]) else find j m)
  unfolding find replace
  find-replace k j v [] = ground arith
  find-replace k j v ((i, u) ∷ m) =
      ground (arith, find-replace k j v m, key.eq_iff k j, key.eq_iff i j, key.eq_iff i k)

  pub find-insert :
      (k j : K) (v : V) (m : List (K × V))
      → find j (insert k v m)
        ≡ (if key.eq k j then (elim (find k m) [ none ↦ some v | some w ↦ some w ]) else find j m)
  unfolding insert
  find-insert k j v m = elim (Option-cases (find k m)) [
    | inl e ↦ ground (arith, find-place k j v m e)
    | inr (w, e) ↦ ground (arith, e, key.eq_iff k j)
  ]

  pub find-assign :
      (k j : K) (v : V) (m : List (K × V))
      → find j (assign k v m) ≡ (if key.eq k j then some v else find j m)
  unfolding assign
  find-assign k j v m = elim (Option-cases (find k m)) [
    | inl e ↦ ground (arith, find-place k j v m e)
    | inr (w, e) ↦ ground (arith, e, find-replace k j v m)
  ]

  pub find-erase :
      (k j : K) (m : List (K × V)) → find j (erase k m) ≡ (if key.eq k j then none else find j m)
  unfolding find erase
  find-erase k j [] = ground arith
  find-erase k j ((i, w) ∷ m) =
      ground (arith, find-erase k j m, key.eq_iff k j, key.eq_iff i j, key.eq_iff i k)

  -- What a lookup found, read back.
  pub assign-found :
      (k j : K) (v w : V) (m : List (K × V))
      → find j (assign k v m) ≡ some w
      → ((k ≡ j) × (v ≡ w)) ⊎ ((key.eq k j ≡ false) × (find j m ≡ some w))
  assign-found k j v w m e = ground (arith, e, find-assign k j v m, key.eq_iff k j)

  pub erase-found :
      (k j : K) (w : V) (m : List (K × V))
      → find j (erase k m) ≡ some w
      → (key.eq k j ≡ false) × (find j m ≡ some w)
  erase-found k j w m e = ground (arith, e, find-erase k j m)

  pub replace-found :
      (k j : K) (u v w : V) (m : List (K × V))
      → find k m ≡ some u
      → find j (replace k v m) ≡ some w
      → ((k ≡ j) × (v ≡ w)) ⊎ ((key.eq k j ≡ false) × (find j m ≡ some w))
  replace-found k j u v w m f e = ground (arith, f, e, find-replace k j v m, key.eq_iff k j)

-- ===== src/OrderedMap/Extensional.antt =====
-- Maps in ascending order are what a lookup finds in them.
use cpplib.Prelude.{
  true, none, some, List, [], ◌∷◌, Key, ◌≡◌, ◌⊎◌, inl, inr, refl, sym, ◌∙◌, ap, subst, arith,
  Bool-cases,
}
use cpplib.OrderedMap.{find, place, insert}
use cpplib.OrderedMap.Order.{Above, IsAscending, Above-trans}

compare :
    {K : Type 0} ⦃key : Key K⦄ (i j : K) → (key.less i j ≡ true) ⊎ (i ≡ j) ⊎ (key.less j i ≡ true)
compare ⦃key⦄ i j = elim (Bool-cases (key.less i j)) [
  | inl lt ↦ inl lt
  | inr ge ↦ elim (Bool-cases (key.eq i j)) [
    | inl same ↦ inr (inl ((key.eq_iff i j).0 same))
    | inr other ↦ inr (inr (key.less_total i j other ge))
  ]
]

module _ {ℓ} {K : Type 0} {V : Type ℓ} ⦃key : Key K⦄ where
  pub find-Above : (k : K) (m : List (K × V)) → Above k m → find k m ≡ none
  unfolding find
  find-Above k [] a = refl
  find-Above k ((j, v) ∷ m) a =
      ground (arith, a, key.eq_iff j k, key.less_irrefl k, find-Above k m a.1)

  find-own : (k : K) (v : V) (m : List (K × V)) → find k ((k, v) ∷ m) ≡ some v
  unfolding find
  find-own k v m = ground (arith, key.eq_iff k k)

  -- The same lookups in the tails.
  tails :
      (k : K) (v w : V) (m n : List (K × V))
      → Above k m
      → Above k n
      → ((j : K) → find j ((k, v) ∷ m) ≡ find j ((k, w) ∷ n))
      → (j : K) → find j m ≡ find j n
  unfolding find
  tails k v w m n a b h j = elim (Bool-cases (key.eq k j)) [
    | inl own ↦ ground (arith, own, key.eq_iff k j, find-Above k m a, find-Above k n b)
    | inr other ↦ ground (arith, other, h j)
  ]

  -- A least key that the other map has not.
  unequal :
      (i j : K) (v w : V) (m n : List (K × V))
      → key.less i j ≡ true
      → Above j n
      → ((k : K) → find k ((i, v) ∷ m) ≡ find k ((j, w) ∷ n))
      → ⊥
  unequal i j v w m n lt b h =
      let gone : find i ((j, w) ∷ n) ≡ none =
        find-Above i ((j, w) ∷ n) (lt, Above-trans i j n lt b) in
      cc (find-own i v m, h i, gone)

  pub find_ext :
      (m n : List (K × V)) → IsAscending m → IsAscending n → ((k : K) → find k m ≡ find k n) → m ≡ n
  find_ext [] [] a b h = refl
  find_ext [] ((j, w) ∷ n) a b h = absurd (cc (h j, find-own j w n, find-Above j [] tt))
  find_ext ((i, v) ∷ m) [] a b h = absurd (cc (h i, find-own i v m, find-Above i [] tt))
  find_ext ((i, v) ∷ m) ((j, w) ∷ n) a b h = elim (compare i j) [
    | inl lt ↦ absurd (unequal i j v w m n lt b.0 h)
    | inr (inr gt) ↦ absurd (unequal j i w v n m gt a.0 (λ k. sym (h k)))
    | inr (inl same) ↦
        let above : Above i n = subst (λ k. Above k n) (sym same) b.0 in
        let equal : (k : K) → find k ((i, v) ∷ m) ≡ find k ((i, w) ∷ n) =
          λ k. h k ∙ ap (λ (l : K). find k ((l, w) ∷ n)) (sym same) in
        let rest = find_ext m n a.1 b.1 (tails i v w m n a.0 above equal) in
        let value : v ≡ w = cc (find-own i v m, equal i, find-own i w n) in cc (same, value, rest)
  ]

  place-Above : (k : K) (v : V) (m : List (K × V)) → Above k m → place k v m ≡ (k, v) ∷ m
  unfolding place
  place-Above k v [] a = refl
  place-Above k v ((j, w) ∷ m) a = rw (a.0, place) refl

  -- An entry below all others goes to the front.
  pub insert-Above : (k : K) (v : V) (m : List (K × V)) → Above k m → insert k v m ≡ (k, v) ∷ m
  unfolding insert
  insert-Above k v m a = rw (find-Above k m a, insert) (place-Above k v m a)

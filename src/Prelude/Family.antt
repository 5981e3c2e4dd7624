-- ===== src/Prelude/Family.antt =====
-- Families of threads: one of them changed, and a weight summed up over the first of them.
use Prim.Native.Nat.{ℕ, zero, suc, ◌+◌, ◌≤◌, ◌<◌}
use mathlib.Core.Path.{◌≡◌, refl, ap, sym, ◌∙◌}
use mathlib.Core.Bool.{true, false}
use mathlib.Core.Logic.{◌≢◌, ◌⊎◌, inl, inr}
use native.Mathlib.Omega.{arith}
use cpplib.Prelude.Tests.{if◌then◌else◌, ◌==◌, ==_iff, Bool-cases}

module _ {ℓ} {A : Type ℓ} where
  abbrev pub update : (ℕ → A) → ℕ → A → ℕ → A
  update f i x j = if j == i then x else f j

  pub update-own : (f : ℕ → A) (i : ℕ) (x : A) → update f i x i ≡ x
  update-own f i x = let own : (i == i) ≡ true = (==_iff i i).1 refl in rw own refl

  -- What stands at a place behind a change was there, or was put there.
  pub update-cases :
      (f : ℕ → A) (i j : ℕ) (x y : A)
      → update f i x j ≡ y
      → ((j ≡ i) × (x ≡ y)) ⊎ (((j == i) ≡ false) × (f j ≡ y))
  update-cases f i j x y e = elim (Bool-cases (j == i)) [
    | inl same ↦
        let own : update f i x j ≡ x = rw same refl in inl ((==_iff j i).0 same, sym own ∙ e)
    | inr other ↦ let kept : update f i x j ≡ f j = rw other refl in inr (other, sym kept ∙ e)
  ]

  -- A change elsewhere, where another value stood.
  pub update-kept :
      (f : ℕ → A) (i j : ℕ) (x : A) {y z : A} → f i ≡ y → f j ≡ z → y ≢ z → update f i x j ≡ z
  update-kept f i j x e g ne = elim (Bool-cases (j == i)) [
    | inl same ↦ absurd (ne (sym e ∙ ap f (sym ((==_iff j i).0 same)) ∙ g))
    | inr other ↦ rw other g
  ]

  unfoldable pub total : (A → ℕ) → ℕ → (ℕ → A) → ℕ
  total w zero f = 0
  total w (suc n) f = w (f n) + total w n f

  total-update_above :
      (w : A → ℕ) (n i : ℕ) (f : ℕ → A) (x : A) → n ≤ i → total w n (update f i x) ≡ total w n f
  unfolding total
  total-update_above w zero i f x h = refl
  total-update_above w (suc n) i f x h =
      let other : (n == i) ≡ false = ground (arith, h) in
      rw (total-update_above w n i f x (omega (arith, h)), other) refl

  pub total-update :
      (w : A → ℕ) (n i : ℕ) (f : ℕ → A) (x : A)
      → i < n
      → total w n (update f i x) + w (f i) ≡ total w n f + w x
  unfolding total
  total-update w zero i f x lt = absurd (omega (arith, lt))
  total-update w (suc n) i f x lt = elim (Bool-cases (n == i)) [
    | inl same ↦
        let eq = (==_iff n i).0 same in
        let rest = total-update_above w n i f x (omega (arith, eq)) in
        let own : w (f n) ≡ w (f i) = ap (λ k. w (f k)) eq in rw same (omega (arith, rest, own))
    | inr other ↦
        let below : i < n = ground (arith, lt, other) in
        let rest = total-update w n i f x below in rw other (omega (arith, rest))
  ]

  -- A weight that one of them has is no more than the sum.
  pub le-total : (w : A → ℕ) (n i : ℕ) (f : ℕ → A) → i < n → w (f i) ≤ total w n f
  unfolding total
  le-total w zero i f lt = absurd (omega (arith, lt))
  le-total w (suc n) i f lt = elim (Bool-cases (n == i)) [
    | inl same ↦
        let own : w (f n) ≡ w (f i) = ap (λ k. w (f k)) ((==_iff n i).0 same) in omega (arith, own)
    | inr other ↦ let rest = le-total w n i f (ground (arith, lt, other)) in omega (arith, rest)
  ]

  -- Two of them have no more than the sum together.
  pub le-total_two :
      (w : A → ℕ) (n i j : ℕ) (f : ℕ → A)
      → i < n
      → j < n
      → (i == j) ≡ false
      → w (f i) + w (f j) ≤ total w n f
  unfolding total
  le-total_two w zero i j f lt lt' ne = absurd (omega (arith, lt))
  le-total_two w (suc n) i j f lt lt' ne = elim (Bool-cases (n == i)) [
    | inl same ↦
        let own : w (f n) ≡ w (f i) = ap (λ k. w (f k)) ((==_iff n i).0 same) in
        let rest = le-total w n j f (ground (arith, lt', ne, same)) in omega (arith, own, rest)
    | inr other ↦ elim (Bool-cases (n == j)) [
      | inl same ↦
          let own : w (f n) ≡ w (f j) = ap (λ k. w (f k)) ((==_iff n j).0 same) in
          let rest = le-total w n i f (ground (arith, lt, other)) in omega (arith, own, rest)
      | inr third ↦
          let rest =
            le-total_two w n i j f (ground (arith, lt, other)) (ground (arith, lt', third)) ne in
          omega (arith, rest)
    ]
  ]

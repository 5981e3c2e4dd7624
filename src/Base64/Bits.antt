-- ===== src/Base64/Bits.antt =====
-- The bit operations of src/Base64.cpp as arithmetic on bytes, by tables over all values.
use Prim.Native.Nat.{bit_and, bit_or}
use cpplib.Prelude.{
  ℕ, zero, suc, ◌+◌, ◌*◌, ◌%◌, ◌^◌, ◌<◌, ◌≡◌, refl, Bool, true, ◌&&◌, arith, ◌==◌, ==_iff,
}

-- A test at every number below a bound.
unfoldable pub holds_below : ℕ → (ℕ → Bool) → Bool
holds_below zero p = true
holds_below (suc n) p = p n && holds_below n p

pub holds_below-lt : (n : ℕ) (p : ℕ → Bool) (x : ℕ) → holds_below n p ≡ true → x < n → p x ≡ true
unfolding holds_below
holds_below-lt zero p x h lt = absurd (omega arith)
holds_below-lt (suc n) p x h lt = ground (arith, holds_below-lt n p x)

-- An equation of two functions at every pair below two bounds.
agree : ℕ → ℕ → (ℕ → ℕ → ℕ) → (ℕ → ℕ → ℕ) → Bool
unfolding holds_below
agree n m f g = holds_below n (λ x. holds_below m (λ y. f x y == g x y))

agree-eq :
    (n m : ℕ) (f g : ℕ → ℕ → ℕ) (x y : ℕ) → agree n m f g ≡ true → x < n → y < m → f x y ≡ g x y
unfolding agree
agree-eq n m f g x y h hx hy =
    (==_iff _ _).0
      (holds_below-lt m _ y (holds_below-lt n (λ a. holds_below m (λ b. f a b == g a b)) x h hx) hy)

pub low_two : (x : ℕ) → x < 256 → bit_and x 0x03 ≡ x % 4
unfolding agree
low_two x h = agree-eq 256 1 (λ x y. bit_and x 0x03) (λ x y. x % 4) x 0 refl h (omega arith)

pub low_four : (x : ℕ) → x < 256 → bit_and x 0x0f ≡ x % 16
unfolding agree
low_four x h = agree-eq 256 1 (λ x y. bit_and x 0x0f) (λ x y. x % 16) x 0 refl h (omega arith)

pub low_six : (x : ℕ) → x < 256 → bit_and x 0x3f ≡ x % 64
unfolding agree
low_six x h = agree-eq 256 1 (λ x y. bit_and x 0x3f) (λ x y. x % 64) x 0 refl h (omega arith)

pub join_four : (x y : ℕ) → x < 64 → y < 16 → bit_or (x * 2 ^ 4) y ≡ x * 16 + y
unfolding agree
join_four x y = agree-eq 64 16 (λ x y. bit_or (x * 2 ^ 4) y) (λ x y. x * 16 + y) x y refl

pub join_two : (x y : ℕ) → x < 64 → y < 4 → bit_or (x * 2 ^ 2) y ≡ x * 4 + y
unfolding agree
join_two x y = agree-eq 64 4 (λ x y. bit_or (x * 2 ^ 2) y) (λ x y. x * 4 + y) x y refl

pub join_six : (x y : ℕ) → x < 64 → y < 64 → bit_or (x * 2 ^ 6) y ≡ x * 64 + y
unfolding agree
join_six x y = agree-eq 64 64 (λ x y. bit_or (x * 2 ^ 6) y) (λ x y. x * 64 + y) x y refl

-- ===== src/Decimal.antt =====
-- `std::to_string` of an unsigned number, and `%u`: the decimal digits, the first one first.
pub mod Width
use cpplib.Prelude.{
  ℕ, zero, suc, ◌+◌, ◌-◌, ◌*◌, ◌/◌, ◌%◌, ◌<◌, ◌≡◌, ◌≢◌, refl, ap, sym, ◌∙◌, [], ◌∷◌, ◌++◌, Text,
  codes, ltb, if◌then◌else◌, arith, All, All-append, Bool-cases, inl, inr,
}

-- One round of fuel for each digit; a number has less digits than its successor has units.
digits : ℕ → ℕ → Text
digits zero n = []
digits (suc fuel) n =
    let front = digits fuel (n / 10) in
    if ltb n 10 then (b'0' + n) ∷ [] else front ++ (b'0' + n % 10) ∷ []

unfoldable pub to_string : ℕ → Text
unfolding digits
to_string n = digits (suc n) n

-- The number that decimal digits spell, behind the digits of `n`.
unfoldable pub value : ℕ → Text → ℕ
value n [] = n
value n (c ∷ s) = value (n * 10 + (c - b'0')) s

pub value-append : (n : ℕ) (s t : Text) → value n (s ++ t) ≡ value (value n s) t
unfolding value
value-append n [] t = refl
value-append n (c ∷ s) t = value-append (n * 10 + (c - b'0')) s t

value-digits : (fuel n : ℕ) → n < fuel → value 0 (digits fuel n) ≡ n
unfolding digits value
value-digits zero n h = absurd (omega arith)
value-digits (suc fuel) n h = elim (Bool-cases (ltb n 10)) [
  | inl e ↦ rw e (omega arith)
  | inr e ↦
      rw e (value-append 0 (digits fuel (n / 10)) _ ∙ ground (arith, value-digits fuel (n / 10), e))
]

abbrev pub IsDecimal : ℕ → Type 0
IsDecimal c = c ≢ b'_'

digits-IsDecimal : (fuel n : ℕ) → All IsDecimal (digits fuel n)
unfolding digits
digits-IsDecimal zero n = tt
digits-IsDecimal (suc fuel) n = elim (Bool-cases (ltb n 10)) [
  | inl e ↦ rw e ((λ h. ground (arith, e, h)), tt)
  | inr e ↦ rw e (
      All-append IsDecimal (digits fuel (n / 10)) _ (digits-IsDecimal fuel (n / 10))
        ((λ h. omega (arith, h)), tt))
]

-- No digit is an underscore.
pub to_string-IsDecimal : (n : ℕ) → All IsDecimal (to_string n)
unfolding to_string
to_string-IsDecimal n = digits-IsDecimal (suc n) n

pub value-to_string : (n : ℕ) → value 0 (to_string n) ≡ n
unfolding to_string
value-to_string n = value-digits (suc n) n (omega arith)

pub to_string_injective : (m n : ℕ) → to_string m ≡ to_string n → m ≡ n
to_string_injective m n e = sym (value-to_string m) ∙ ap (value 0) e ∙ value-to_string n

to_string_runs : to_string 60200 ≡ codes "60200"
unfolding to_string
to_string_runs = refl

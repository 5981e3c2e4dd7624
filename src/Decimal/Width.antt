-- ===== src/Decimal/Width.antt =====
-- `%0<width>u`: decimal digits with zeros in front, up to a width.
use cpplib.Prelude.{
  ℕ, zero, suc, ◌+◌, ◌-◌, ◌*◌, ◌/◌, ◌%◌, ◌≤◌, ◌<◌, ◌≡◌, refl, ap, ◌∙◌, [], ◌∷◌, ◌++◌, Text, ltb,
  length, length-append, arith, Bool-cases, inl, inr,
}
use cpplib.Decimal.{digits, to_string, value, value-append, value-to_string}

-- 10 to the power of a width.
abbrev pub power : ℕ → ℕ
power zero = 1
power (suc w) = 10 * power w

zeros : ℕ → Text
zeros zero = []
zeros (suc n) = b'0' ∷ zeros n

unfoldable pub pad : ℕ → ℕ → Text
unfolding zeros
pad width n = zeros (width - length (to_string n)) ++ to_string n

length-digits : (fuel w n : ℕ) → n < power (suc w) → length (digits fuel n) ≤ suc w
unfolding digits
length-digits zero w n h = omega arith
length-digits (suc fuel) zero n h = ground (arith, h)
length-digits (suc fuel) (suc w) n h = elim (Bool-cases (ltb n 10)) [
  | inl e ↦ rw e (omega arith)
  | inr e ↦ rw e (
      omega (
        arith,
        length-append (digits fuel (n / 10)) ((b'0' + n % 10) ∷ []),
        length-digits fuel w (n / 10) (omega (arith, h)),
      ))
]

length-zeros : (n : ℕ) → length (zeros n) ≡ n
unfolding zeros
length-zeros zero = refl
length-zeros (suc n) = omega (arith, length-zeros n)

value-zeros : (n : ℕ) → value 0 (zeros n) ≡ 0
unfolding zeros value
value-zeros zero = refl
value-zeros (suc n) = value-zeros n

pub length-to_string : (w n : ℕ) → n < power (suc w) → length (to_string n) ≤ suc w
unfolding to_string
length-to_string w n h = length-digits (suc n) w n h

pub length-pad : (w n : ℕ) → n < power (suc w) → length (pad (suc w) n) ≡ suc w
unfolding pad
length-pad w n h = omega (
  arith,
  length-append (zeros (suc w - length (to_string n))) (to_string n),
  length-zeros (suc w - length (to_string n)),
  length-to_string w n h,
)

-- The padding does not change the number.
pub value-pad : (w n : ℕ) → value 0 (pad w n) ≡ n
unfolding pad
value-pad w n =
    let front = zeros (w - length (to_string n)) in
    value-append 0 front (to_string n)
    ∙ ap (λ k. value k (to_string n)) (value-zeros (w - length (to_string n)))
    ∙ value-to_string n

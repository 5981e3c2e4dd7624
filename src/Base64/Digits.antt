-- ===== src/Base64/Digits.antt =====
-- The digits of src/Base64.cpp: the table `base64` against `get_base64_value`, and one group of
-- three bytes through both.
use Prim.Native.Nat.{bit_and, bit_or}
use cpplib.Prelude.{
  ℕ, ◌+◌, ◌*◌, ◌/◌, ◌%◌, ◌^◌, ◌<◌, ◌≡◌, ◌≢◌, refl, Bool, true, not, ◌&&◌, ◌||◌, arith, ◌==◌, ltb,
  if◌then◌else◌, [], ◌∷◌,
}
use cpplib.Base64.{
  digit, get_base64_value, is_base64_alphabet, encode_group, first_byte, second_byte, third_byte,
}
use cpplib.Base64.Bits.{
  holds_below, holds_below-lt, low_two, low_four, low_six, join_two, join_four, join_six,
}

-- A character that is neither `+` nor `/`.
abbrev pub IsPlain : ℕ → Type 0
IsPlain c = (c ≢ b'+') × (c ≢ b'/')

good_digit : ℕ → Bool
good_digit k =
    is_base64_alphabet (digit k)
    && not (digit k == b'=')
    && (if ltb k 62 then get_base64_value (digit k) == k else digit k == b'+' || digit k == b'/')

good_digits : holds_below 64 good_digit ≡ true
unfolding holds_below good_digit is_base64_alphabet get_base64_value
good_digits = refl

digit_good : (k : ℕ) → k < 64 → good_digit k ≡ true
digit_good k = holds_below-lt 64 good_digit k good_digits

pub digit_alphabet : (k : ℕ) → k < 64 → is_base64_alphabet (digit k) ≡ true
unfolding good_digit
digit_alphabet k h = ground (arith, digit_good k h)

pub digit_ne_equal : (k : ℕ) → k < 64 → digit k ≢ b'='
unfolding good_digit
digit_ne_equal k h = ground (arith, digit_good k h)

pub value-digit : (k : ℕ) → k < 64 → IsPlain (digit k) → get_base64_value (digit k) ≡ k
unfolding good_digit
value-digit k h plain = ground (arith, digit_good k h)

-- One group of bytes: its characters have values that spell the bytes again.
module _ (a b c : ℕ) (ha : a < 256) (hb : b < 256) (hc : c < 256) where
  pub second_digit : bit_or (bit_and a 0x03 * 2 ^ 4) (b / 2 ^ 4) ≡ a % 4 * 16 + b / 16
  second_digit = rw (low_two a ha) (join_four (a % 4) (b / 16) (omega arith) (omega arith))

  pub third_digit : bit_or (bit_and b 0x0f * 2 ^ 2) (c / 2 ^ 6) ≡ b % 16 * 4 + c / 64
  third_digit = rw (low_four b hb) (join_two (b % 16) (c / 64) (omega arith) (omega arith))

  pub encode_group-eq :
      encode_group a b c
      ≡ digit (a / 4)
        ∷ digit (a % 4 * 16 + b / 16)
        ∷ digit (b % 16 * 4 + c / 64)
        ∷ digit (c % 64)
        ∷ []
  unfolding encode_group
  encode_group-eq = rw (second_digit, third_digit, low_six c hc)

  pub first_byte-eq : first_byte (a / 4) (a % 4 * 16 + b / 16) ≡ a
  first_byte-eq =
      omega (arith, join_two (a / 4) ((a % 4 * 16 + b / 16) / 16) (omega arith) (omega arith))

  pub second_byte-eq : second_byte (a % 4 * 16 + b / 16) (b % 16 * 4 + c / 64) ≡ b
  second_byte-eq = omega (
    arith,
    join_four (a % 4 * 16 + b / 16) ((b % 16 * 4 + c / 64) / 4) (omega arith) (omega arith),
  )

  pub third_byte-eq : third_byte (b % 16 * 4 + c / 64) (c % 64) ≡ c
  third_byte-eq = omega (arith, join_six (b % 16 * 4 + c / 64) (c % 64) (omega arith) (omega arith))

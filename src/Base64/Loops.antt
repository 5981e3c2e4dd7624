-- ===== src/Base64/Loops.antt =====
-- The two loops of src/Base64.cpp against each other, group by group.
use cpplib.Prelude.{
  ℕ, zero, suc, ◌+◌, ◌*◌, ◌/◌, ◌%◌, ◌<◌, ◌≤◌, ◌≡◌, ◌≢◌, refl, true, some, arith, List, [], ◌∷◌,
  ◌++◌, map, All, ap, length, length-append,
}
use cpplib.Base64.{
  digit, get_base64_value, is_base64_alphabet, encode_group, encode_loop, decode_loop,
}
use cpplib.Base64.Digits.{
  IsPlain, digit_alphabet, digit_ne_equal, value-digit, encode_group-eq, first_byte-eq,
  second_byte-eq, third_byte-eq,
}

abbrev pub IsByte : ℕ → Type 0
IsByte c = c < 256

-- A character of the alphabet other than `=`.
abbrev pub IsDigit : ℕ → Type 0
IsDigit c = (is_base64_alphabet c ≡ true) × (c ≢ b'=')

pub digit-IsDigit : (k : ℕ) → k < 64 → IsDigit (digit k)
digit-IsDigit k h = (digit_alphabet k h, digit_ne_equal k h)

-- What `n` rounds make of a text: the characters, the bytes read, the bytes left.
pub record Trip (n : ℕ) (src : List ℕ) : Type 0 where
  pub text : List ℕ
  pub front : List ℕ
  pub rest : List ℕ
  pub encodes : encode_loop n src ≡ some (text, rest)
  pub splits : src ≡ front ++ rest
  pub front_length : length front ≡ n * 3
  pub text_length : length text ≡ n * 4
  pub digits : All IsDigit text
  pub decodes :
      All IsPlain text
      → (tail : List ℕ) → decode_loop n (map get_base64_value text ++ tail) ≡ some front

group_length : (a b c : ℕ) → length (encode_group a b c) ≡ 4
unfolding encode_group
group_length a b c = refl

module _ (n a b c : ℕ) (src : List ℕ) (ha : a < 256) (hb : b < 256) (hc : c < 256)
    (t : Trip n src) where
  step_encodes : encode_loop (suc n) (a ∷ b ∷ c ∷ src) ≡ some (encode_group a b c ++ t.text, t.rest)
  unfolding encode_loop
  step_encodes = ground (arith, t.encodes)

  step_digits : All IsDigit (encode_group a b c ++ t.text)
  step_digits = rw (encode_group-eq a b c ha hb hc) (
    digit-IsDigit (a / 4) (omega arith),
    (
      digit-IsDigit (a % 4 * 16 + b / 16) (omega arith),
      (
        digit-IsDigit (b % 16 * 4 + c / 64) (omega arith),
        (digit-IsDigit (c % 64) (omega arith), t.digits),
      ),
    ),
  )

  step_values :
      All IsPlain (encode_group a b c ++ t.text)
      → (tail : List ℕ)
      → map get_base64_value (encode_group a b c ++ t.text) ++ tail
        ≡ a / 4
          ∷ (a % 4 * 16 + b / 16)
          ∷ (b % 16 * 4 + c / 64)
          ∷ c % 64
          ∷ (map get_base64_value t.text ++ tail)
  step_values = rw (encode_group-eq a b c ha hb hc) λ plain tail. cc (
    value-digit (a / 4) (omega arith) plain.0,
    value-digit (a % 4 * 16 + b / 16) (omega arith) plain.1.0,
    value-digit (b % 16 * 4 + c / 64) (omega arith) plain.1.1.0,
    value-digit (c % 64) (omega arith) plain.1.1.1.0,
  )

  step-IsPlain : All IsPlain (encode_group a b c ++ t.text) → All IsPlain t.text
  step-IsPlain = rw (encode_group-eq a b c ha hb hc) λ plain. plain.1.1.1.1

  step_decodes :
      All IsPlain (encode_group a b c ++ t.text)
      → (tail : List ℕ)
      → decode_loop (suc n) (map get_base64_value (encode_group a b c ++ t.text) ++ tail)
        ≡ some (a ∷ b ∷ c ∷ t.front)
  unfolding decode_loop
  step_decodes plain tail = rw (step_values plain tail) (
      ground (
        arith,
        t.decodes (step-IsPlain plain) tail,
        first_byte-eq a b c ha hb hc,
        second_byte-eq a b c ha hb hc,
        third_byte-eq a b c ha hb hc,
      ))

-- `n` rounds over a text of at least `n` groups.
pub trip : (n : ℕ) (src : List ℕ) → All IsByte src → n * 3 ≤ length src → Trip n src
unfolding encode_loop decode_loop
trip zero src h long = record {
  text = [];
  front = [];
  rest = src;
  encodes = refl;
  splits = refl;
  front_length = refl;
  text_length = refl;
  digits = tt;
  decodes = λ plain tail. refl;
}
trip (suc n) (a ∷ b ∷ c ∷ src) h long =
    let t = trip n src h.1.1.1 (omega arith) in
    record {
      text = encode_group a b c ++ t.text;
      front = a ∷ b ∷ c ∷ t.front;
      rest = t.rest;
      encodes = step_encodes n a b c src h.0 h.1.0 h.1.1.0 t;
      splits = ap (λ s. a ∷ b ∷ c ∷ s) t.splits;
      front_length = omega (arith, t.front_length);
      text_length =
          omega
            (arith, t.text_length, length-append (encode_group a b c) t.text, group_length a b c);
      digits = step_digits n a b c src h.0 h.1.0 h.1.1.0 t;
      decodes = step_decodes n a b c src h.0 h.1.0 h.1.1.0 t;
    }
trip (suc n) [] h long = absurd (omega arith)
trip (suc n) (a ∷ []) h long = absurd (omega arith)
trip (suc n) (a ∷ b ∷ []) h long = absurd (omega arith)

-- ===== src/Base64/LastGroup.antt =====
-- The last group of `Base64::encrypt` in src/Base64.cpp, and its decoding.
use cpplib.Prelude.{
  ℕ, ◌+◌, ◌*◌, ◌/◌, ◌%◌, ◌^◌, ◌<◌, ◌≤◌, ◌≡◌, refl, true, none, some, arith, List, [], ◌∷◌, ◌++◌,
  map, All, ap, ◌∙◌, take, length, if◌then◌else◌, ◌==◌,
}
use cpplib.Base64.{
  digit, get_base64_value, is_base64_alphabet, encode_last, decode_last, search_str,
  all_in_alphabet, find, starts_with,
}
use cpplib.Base64.Bits.{low_two, low_four}
use cpplib.Base64.Digits.{
  IsPlain, value-digit, encode_group-eq, first_byte-eq, second_byte-eq, third_byte-eq, second_digit,
}
use cpplib.Base64.Loops.{IsByte, IsDigit, digit-IsDigit}
use cpplib.Base64.Padding.{equals, search_none, search_some, find_digits, alphabet-append}

-- The zero byte that a text of 3 * n + 1 bytes gains: both `=` count as one.
abbrev pub padding : ℕ → List ℕ
padding len = if len % 3 == 1 then 0 ∷ [] else []

value_equal : get_base64_value b'=' ≡ 0
unfolding get_base64_value
value_equal = refl

pub All-split : (P : ℕ → Type 0) (xs ys : List ℕ) → All P (xs ++ ys) → All P xs × All P ys
All-split P [] ys h = (tt, h)
All-split P (x ∷ xs) ys h = let (front, back) = All-split P xs ys h.1 in ((h.0, front), back)

-- The last group for each number of bytes in it: its characters, and their decoding.
abbrev pub Last : List ℕ → Type 0
Last bytes =
    (last : List ℕ) × (encode_last (length bytes % 3) bytes ≡ some last)
    × (length last ≡ 4)
    × (all_in_alphabet last ≡ true)
    × ((xs : List ℕ)
        → All IsDigit xs
        → search_str (xs ++ last) equals ≡ (if length bytes == 3 then 0 else 1))
    × (All IsPlain last
        → decode_last (if length bytes == 3 then 0 else 1)
            (map get_base64_value (take (if length bytes == 3 then 4 else 3) last))
          ≡ some (bytes ++ padding (length bytes)))

find_nil : find equals [] ≡ none
unfolding find
find_nil = refl

digits_alphabet : (xs : List ℕ) → All IsDigit xs → all_in_alphabet (xs ++ []) ≡ true
unfolding all_in_alphabet
digits_alphabet xs h = alphabet-append xs [] h refl

Last-three : (a b c : ℕ) → a < 256 → b < 256 → c < 256 → Last (a ∷ b ∷ c ∷ [])
unfolding encode_last decode_last
Last-three a b c ha hb hc =
    let last : List ℕ =
      digit (a / 4)
      ∷ digit (a % 4 * 16 + b / 16)
      ∷ digit (b % 16 * 4 + c / 64)
      ∷ digit (c % 64)
      ∷ [] in
    let d : All IsDigit last = (
      digit-IsDigit (a / 4) (omega arith),
      (
        digit-IsDigit (a % 4 * 16 + b / 16) (omega arith),
        (
          digit-IsDigit (b % 16 * 4 + c / 64) (omega arith),
          (digit-IsDigit (c % 64) (omega arith), tt),
        ),
      ),
    ) in
    (
      last,
      ap some (encode_group-eq a b c ha hb hc),
      refl,
      digits_alphabet last d,
      (λ xs h. search_none xs last h (find_digits last [] d ∙ find_nil)),
      λ plain. cc (
        value-digit (a / 4) (omega arith) plain.0,
        value-digit (a % 4 * 16 + b / 16) (omega arith) plain.1.0,
        value-digit (b % 16 * 4 + c / 64) (omega arith) plain.1.1.0,
        value-digit (c % 64) (omega arith) plain.1.1.1.0,
        first_byte-eq a b c ha hb hc,
        second_byte-eq a b c ha hb hc,
        third_byte-eq a b c ha hb hc,
      ),
    )

find_equal : (s : List ℕ) → find equals (b'=' ∷ s) ≡ some s
unfolding find starts_with
find_equal s = refl

equals_alphabet :
    (xs : List ℕ)
    → All IsDigit xs
    → (all_in_alphabet (xs ++ b'=' ∷ []) ≡ true) × (all_in_alphabet (xs ++ b'=' ∷ b'=' ∷ []) ≡ true)
unfolding all_in_alphabet is_base64_alphabet
equals_alphabet xs h = (alphabet-append xs _ h refl, alphabet-append xs _ h refl)

Last-two : (a b : ℕ) → a < 256 → b < 256 → Last (a ∷ b ∷ [])
unfolding encode_last decode_last
Last-two a b ha hb =
    let third : b % 16 * 2 ^ 2 ≡ b % 16 * 4 + 0 / 64 = omega arith in
    let digits : List ℕ =
      digit (a / 4) ∷ digit (a % 4 * 16 + b / 16) ∷ digit (b % 16 * 4 + 0 / 64) ∷ [] in
    let d : All IsDigit digits = (
      digit-IsDigit (a / 4) (omega arith),
      (
        digit-IsDigit (a % 4 * 16 + b / 16) (omega arith),
        (digit-IsDigit (b % 16 * 4 + 0 / 64) (omega arith), tt),
      ),
    ) in
    (
      digits ++ b'=' ∷ [],
      cc (second_digit a b 0 ha hb (omega arith), low_four b hb, third),
      refl,
      (equals_alphabet digits d).0,
      (λ xs h. search_some xs _ [] h (find_digits digits _ d ∙ find_equal [])),
      λ plain. cc (
        value-digit (a / 4) (omega arith) plain.0,
        value-digit (a % 4 * 16 + b / 16) (omega arith) plain.1.0,
        value-digit (b % 16 * 4 + 0 / 64) (omega arith) plain.1.1.0,
        first_byte-eq a b 0 ha hb (omega arith),
        second_byte-eq a b 0 ha hb (omega arith),
      ),
    )

Last-one : (a : ℕ) → a < 256 → Last (a ∷ [])
unfolding encode_last decode_last
Last-one a ha =
    let second : a % 4 * 2 ^ 4 ≡ a % 4 * 16 + 0 / 16 = omega arith in
    let digits : List ℕ = digit (a / 4) ∷ digit (a % 4 * 16 + 0 / 16) ∷ [] in
    let d : All IsDigit digits = (
      digit-IsDigit (a / 4) (omega arith),
      (digit-IsDigit (a % 4 * 16 + 0 / 16) (omega arith), tt),
    ) in
    (
      digits ++ b'=' ∷ b'=' ∷ [],
      cc (low_two a ha, second),
      refl,
      (equals_alphabet digits d).1,
      (λ xs h. search_some xs _ (b'=' ∷ []) h (find_digits digits _ d ∙ find_equal (b'=' ∷ []))),
      λ plain. cc (
        value-digit (a / 4) (omega arith) plain.0,
        value-digit (a % 4 * 16 + 0 / 16) (omega arith) plain.1.0,
        value_equal,
        first_byte-eq a 0 0 ha (omega arith) (omega arith),
        second_byte-eq a 0 0 ha (omega arith) (omega arith),
      ),
    )

pub Last-cases :
    (bytes : List ℕ) → All IsByte bytes → 0 < length bytes → length bytes ≤ 3 → Last bytes
Last-cases [] h lo hi = absurd (omega arith)
Last-cases (a ∷ []) h lo hi = Last-one a h.0
Last-cases (a ∷ b ∷ []) h lo hi = Last-two a b h.0 h.1.0
Last-cases (a ∷ b ∷ c ∷ []) h lo hi = Last-three a b c h.0 h.1.0 h.1.1.0
Last-cases (a ∷ b ∷ c ∷ d ∷ bytes) h lo hi = absurd (omega arith)

-- ===== src/Base64.antt =====
-- src/Base64.cpp: the two functions of class Base64 and their helpers. A text is the list of its
-- bytes. `none` is a read out of bounds or of a cell that is not set, which the source does not
-- guard, or a loop without an end; a result has the
-- return code and the bytes of `pDst` up to its closing zero.
pub mod Bits
pub mod Digits
pub mod Loops
pub mod Padding
pub mod LastGroup
pub mod RoundTrip
pub mod Errors
pub mod Long
use Prim.Native.Nat.{bit_and, bit_or}
use cpplib.Prelude.{
  ℕ, zero, suc, ◌+◌, ◌-◌, ◌*◌, ◌/◌, ◌%◌, ◌^◌, ℤ, pos, negsuc, Bool, true, false, ◌&&◌, ◌||◌, Option,
  none, some, List, [], ◌∷◌, ◌++◌, map, ltb, leb, ◌==◌, if◌then◌else◌, length, get_or, take, drop,
  u32, codes,
}

abbrev pub base64 : List ℕ
base64 = codes "ABCDEFGHIJKLMNOPQRSTUVWXYZabcdefghijklmnopqrstuvwxyz0123456789+/"

pub is_base64_alphabet : ℕ → Bool
is_base64_alphabet ch =
    (ltb 47 ch && ltb ch 58)
    || (ltb 64 ch && ltb ch 91)
    || (ltb 96 ch && ltb ch 123)
    || (ch == b'+')
    || (ch == b'/')
    || (ch == b'=')

-- The `switch` at the end has no `break`: each of its cases runs into `value = 0`.
pub get_base64_value : ℕ → ℕ
get_base64_value ch =
    if leb b'A' ch && leb ch b'Z'
    then ch - b'A'
    else if leb b'a' ch && leb ch b'z'
    then ch - b'a' + 26
    else if leb b'0' ch && leb ch b'9'
    then ch - b'0' + 52
    else 0

pub starts_with : List ℕ → List ℕ → Bool
starts_with [] s = true
starts_with (k ∷ key) [] = false
starts_with (k ∷ key) (c ∷ s) = (k == c) && starts_with key s

-- `find`: what stands behind the first occurrence of a search text that is not empty.
pub find : List ℕ → List ℕ → Option (List ℕ)
find key [] = none
find key (c ∷ s) = if starts_with key (c ∷ s) then some (drop (length key) (c ∷ s)) else find key s

-- The counter `nCnt` is a `bool`: `++nCnt` sets it.
search_loop : ℕ → List ℕ → List ℕ → Bool → Bool
search_loop zero key s cnt = cnt
search_loop (suc fuel) key s cnt = elim (find key s) [
  | none ↦ cnt
  | some rest ↦ search_loop fuel key rest true
]

-- Each round of the loop shortens the text, so its length and one round more are enough.
pub search_str : List ℕ → List ℕ → ℕ
unfolding search_loop find starts_with
search_str [] key = 0
search_str (c ∷ s) [] = 0
search_str (c ∷ s) (k ∷ key) =
    if search_loop (suc (length (c ∷ s))) (k ∷ key) (c ∷ s) false then 1 else 0

abbrev pub digit : ℕ → ℕ
digit k = get_or base64 k 0

-- Four characters for three bytes.
unfoldable pub encode_group : ℕ → ℕ → ℕ → List ℕ
encode_group a b c =
    digit (a / 2 ^ 2)
    ∷ digit (bit_or (bit_and a 0x03 * 2 ^ 4) (b / 2 ^ 4))
    ∷ digit (bit_or (bit_and b 0x0f * 2 ^ 2) (c / 2 ^ 6))
    ∷ digit (bit_and c 0x3f)
    ∷ []

-- The `for` loop: the characters that it writes, and what it has not read.
pub encode_loop : ℕ → List ℕ → Option (List ℕ × List ℕ)
encode_loop zero src = some ([], src)
encode_loop (suc n) (a ∷ b ∷ c ∷ rest) = elim (encode_loop n rest) [
  | none ↦ none
  | some (out, end) ↦ some (encode_group a b c ++ out, end)
]
encode_loop (suc n) src = none

-- The last group, by `padding_len`.
pub encode_last : ℕ → List ℕ → Option (List ℕ)
encode_last zero (a ∷ b ∷ c ∷ rest) = some (encode_group a b c)
encode_last (suc zero) (a ∷ rest) =
    some (digit (a / 2 ^ 2) ∷ digit (bit_and a 0x03 * 2 ^ 4) ∷ b'=' ∷ b'=' ∷ [])
encode_last (suc (suc zero)) (a ∷ b ∷ rest) = some (
    digit (a / 2 ^ 2)
    ∷ digit (bit_or (bit_and a 0x03 * 2 ^ 4) (b / 2 ^ 4))
    ∷ digit (bit_and b 0x0f * 2 ^ 2)
    ∷ b'='
    ∷ [])
encode_last _ _ = none

-- The number of groups of a text, and of rounds of the loop: `count - 1` of type unsigned int.
abbrev pub group_count : ℕ → ℕ
group_count len = if 0 == len % 3 then len / 3 else len / 3 + 1

abbrev pub rounds : ℕ → ℕ
rounds count = u32 (count + 2 ^ 32 - 1)

unfoldable pub encrypt : List ℕ → Option (ℤ × List ℕ)
unfolding encode_loop encode_last
encrypt src = elim (encode_loop (rounds (group_count (length src))) src) [
  | none ↦ none
  | some (out, end) ↦ elim (encode_last (length src % 3) end) [
    | none ↦ none
    | some last ↦ some (pos 0, out ++ last)
  ]
]

-- The three bytes of four digits, cut to `char`.
abbrev pub first_byte : ℕ → ℕ → ℕ
first_byte a b = bit_or (a * 2 ^ 2) (b / 2 ^ 4) % 2 ^ 8

abbrev pub second_byte : ℕ → ℕ → ℕ
second_byte b c = bit_or (b * 2 ^ 4) (c / 2 ^ 2) % 2 ^ 8

abbrev pub third_byte : ℕ → ℕ → ℕ
third_byte c d = bit_or (c * 2 ^ 6) d % 2 ^ 8

pub decode_loop : ℕ → List ℕ → Option (List ℕ)
decode_loop zero values = some []
decode_loop (suc n) (a ∷ b ∷ c ∷ d ∷ rest) = elim (decode_loop n rest) [
  | none ↦ none
  | some out ↦ some (first_byte a b ∷ second_byte b c ∷ third_byte c d ∷ out)
]
decode_loop (suc n) values = none

-- The last group, by `equal_count`, from the digits at `last_id*4`.
pub decode_last : ℕ → List ℕ → Option (List ℕ)
decode_last zero (a ∷ b ∷ c ∷ d ∷ rest) =
    some (first_byte a b ∷ second_byte b c ∷ third_byte c d ∷ [])
decode_last (suc zero) (a ∷ b ∷ c ∷ rest) = some (first_byte a b ∷ second_byte b c ∷ [])
decode_last (suc (suc zero)) (a ∷ b ∷ rest) = some (first_byte a b ∷ [])
decode_last _ _ = none

-- Stores into an array from a position on.
pub store : List ℕ → ℕ → List ℕ → List ℕ
store (x ∷ xs) zero (b ∷ bytes) = b ∷ store xs zero bytes
store (x ∷ xs) (suc i) bytes = x ∷ store xs i bytes
store xs i bytes = xs

abbrev pub zeros : ℕ → List ℕ
zeros zero = []
zeros (suc n) = 0 ∷ zeros n

-- `last_id` is an unsigned char.
abbrev pub last_id : ℕ → ℕ
last_id count = (count + 2 ^ 32 - 1) % 2 ^ 8

-- From the digits on: `base64_src`, `count` and `equal_count` are given. The loop fills the
-- array from its start.
unfoldable pub decode : List ℕ → ℕ → ℕ → Option (ℤ × List ℕ)
unfolding decode_loop decode_last store
decode values count equal_count = elim (decode_loop (rounds count) values) [
  | none ↦ none
  | some out ↦ elim (decode_last equal_count (drop (last_id count * 4) values)) [
    | none ↦ none
    | some last ↦ some (
      pos 0,
      store (out ++ zeros (count * 3 - equal_count - length out)) (last_id count * 3) last,
    )
  ]
]

pub all_in_alphabet : List ℕ → Bool
all_in_alphabet [] = true
all_in_alphabet (c ∷ s) = is_base64_alphabet c && all_in_alphabet s

-- `strlen` on an array whose first cells are set: `none` is a read of a cell that is not.
pub strlen : List ℕ → Option ℕ
strlen [] = none
strlen (zero ∷ s) = some 0
strlen (suc c ∷ s) = elim (strlen s) [ none ↦ none | some n ↦ some (suc n) ]

-- The digits without the closing `=` that were counted: `base64_src`, which has one cell more that
-- is not set.
abbrev pub digits_of : List ℕ → List ℕ
digits_of src = map get_base64_value (take (length src - search_str src (b'=' ∷ [])) src)

-- The counter of the loop on the alphabet has 32 bits: it does not get to the end of a text of
-- 2 ^ 32 bytes or more, and `none` is a loop that goes on for good.
unfoldable pub decrypt : List ℕ → Option (ℤ × List ℕ)
unfolding all_in_alphabet is_base64_alphabet get_base64_value search_str decode strlen store
decrypt src =
    let equal_count = search_str src (b'=' ∷ []) in
    if ltb 0 (length src % 4)
    then some (negsuc 0, [])
    else if leb (2 ^ 32) (length src)
    then (if all_in_alphabet (take (2 ^ 32) src) then none else some (negsuc 1, []))
    else if all_in_alphabet src
    then (if ltb 2 equal_count then some (negsuc 2, []) else elim (strlen (digits_of src)) [
      | none ↦ none
      | some end ↦ decode (store (digits_of src) end (0 ∷ [])) (length src / 4) equal_count
    ])
    else some (negsuc 1, [])

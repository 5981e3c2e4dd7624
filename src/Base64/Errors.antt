-- ===== src/Base64/Errors.antt =====
-- The refusals of `Base64::decrypt` in src/Base64.cpp, and the digits that it does not tell apart.
use cpplib.Prelude.{
  Option, ℤ, leb, ℕ, zero, suc, ◌-◌, ◌/◌, ◌^◌, ◌%◌, ◌≡◌, refl, Bool, true, false, ◌||◌, none, some,
  arith, negsuc, List, [], ◌∷◌, map, ap, take, length, ltb, if◌then◌else◌, ◌==◌, ◌⊎◌, inl, inr,
  ℕ_discrete,
}
use cpplib.Base64.{
  strlen, digits_of, store, decode, get_base64_value, is_base64_alphabet, decrypt, decode,
  search_str, search_loop, all_in_alphabet, find, starts_with,
}

-- A `+` or `/` replaced by `A`, whose digit is 0.
abbrev pub flatten : ℕ → ℕ
flatten c = if c == b'+' || c == b'/' then b'A' else c

value-flatten : (c : ℕ) → get_base64_value (flatten c) ≡ get_base64_value c
unfolding get_base64_value
value-flatten c = ground arith

alphabet-flatten : (c : ℕ) → is_base64_alphabet (flatten c) ≡ is_base64_alphabet c
unfolding is_base64_alphabet
alphabet-flatten c = ground arith

length-flatten : (s : List ℕ) → length (map flatten s) ≡ length s
length-flatten [] = refl
length-flatten (c ∷ s) = ap suc (length-flatten s)

map-take : (n : ℕ) (s : List ℕ) → take n (map flatten s) ≡ map flatten (take n s)
map-take zero s = refl
map-take (suc n) [] = refl
map-take (suc n) (c ∷ s) = ap (λ l. flatten c ∷ l) (map-take n s)

values-flatten : (s : List ℕ) → map get_base64_value (map flatten s) ≡ map get_base64_value s
values-flatten [] = refl
values-flatten (c ∷ s) = cc (value-flatten c, values-flatten s)

all-flatten : (s : List ℕ) → all_in_alphabet (map flatten s) ≡ all_in_alphabet s
unfolding all_in_alphabet
all-flatten [] = refl
all-flatten (c ∷ s) = cc (alphabet-flatten c, all-flatten s)

find-flatten :
    (s : List ℕ)
    → ((find (b'=' ∷ []) s ≡ none) × (find (b'=' ∷ []) (map flatten s) ≡ none))
      ⊎ ((rest : List ℕ) × (find (b'=' ∷ []) s ≡ some rest)
          × (find (b'=' ∷ []) (map flatten s) ≡ some (map flatten rest)))
unfolding find starts_with
find-flatten [] = inl (refl, refl)
find-flatten (c ∷ s) = elim (ℕ_discrete c b'=') [
  | yes e ↦ inr (s, rw e, rw e)
  | no ne ↦ elim (find-flatten s) [
    | inl (p, q) ↦ inl (ground arith, ground arith)
    | inr (rest, p, q) ↦ inr (rest, ground arith, ground arith)
  ]
]

loop-flatten :
    (fuel : ℕ) (s : List ℕ) (cnt : Bool)
    → search_loop fuel (b'=' ∷ []) (map flatten s) cnt ≡ search_loop fuel (b'=' ∷ []) s cnt
unfolding search_loop
loop-flatten zero s cnt = refl
loop-flatten (suc fuel) s cnt = elim (find-flatten s) [
  | inl (p, q) ↦ rw (p, q, search_loop)
  | inr (rest, p, q) ↦ rw (p, q, search_loop) (loop-flatten fuel rest true)
]

search-flatten : (s : List ℕ) → search_str (map flatten s) (b'=' ∷ []) ≡ search_str s (b'=' ∷ [])
unfolding search_str
search-flatten [] = refl
search-flatten (c ∷ s) = rw (length-flatten s, loop-flatten (suc (suc (length s))) (c ∷ s) false)

digits-flatten : (s : List ℕ) → digits_of (map flatten s) ≡ digits_of s
digits-flatten s =
    let n = search_str s (b'=' ∷ []) in
    rw (
      search-flatten s,
      length-flatten s,
      map-take (length s - n) s,
      values-flatten (take (length s - n) s),
    )

-- What `decrypt` knows of its text.
decrypt_by : ℕ → ℕ → Bool → Bool → List ℕ → Option (ℤ × List ℕ)
decrypt_by len equal_count good_front good digits =
    if ltb 0 (len % 4)
    then some (negsuc 0, [])
    else if leb (2 ^ 32) len
    then (if good_front then none else some (negsuc 1, []))
    else if good
    then (if ltb 2 equal_count then some (negsuc 2, []) else elim (strlen digits) [
      | none ↦ none
      | some end ↦ decode (store digits end (0 ∷ [])) (len / 4) equal_count
    ])
    else some (negsuc 1, [])

decrypt-by :
    (s : List ℕ)
    → decrypt s
      ≡ decrypt_by
          (length s)
          (search_str s (b'=' ∷ []))
          (all_in_alphabet (take (2 ^ 32) s))
          (all_in_alphabet s)
          (digits_of s)
unfolding decrypt decrypt_by
decrypt-by s = refl

front-flatten :
    (s : List ℕ)
    → all_in_alphabet (take (2 ^ 32) (map flatten s)) ≡ all_in_alphabet (take (2 ^ 32) s)
front-flatten s = rw (map-take (2 ^ 32) s) (all-flatten (take (2 ^ 32) s))

-- `decrypt` does not tell `+` and `/` from `A`: a text of any length has the result, be it an error,
-- none or decoded bytes, of the text with an `A` in the place of each of these characters.
pub decrypt-flatten : (s : List ℕ) → decrypt (map flatten s) ≡ decrypt s
decrypt-flatten s = cc (
  decrypt-by s,
  decrypt-by (map flatten s),
  length-flatten s,
  search-flatten s,
  front-flatten s,
  all-flatten s,
  digits-flatten s,
)

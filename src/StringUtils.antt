-- ===== src/StringUtils.antt =====
-- src/StringUtils.h and src/StringUtils.cpp: the ways to trim and to split a text. A text is the
-- list of its bytes.
pub mod Split
pub mod Trim
pub mod Tokens
pub mod Format
use cpplib.Prelude.{
  ℕ, zero, suc, ◌+◌, ◌-◌, ℤ, pos, eq_ℤ, Bool, true, false, ◌||◌, Option, none, some, List, [], ◌∷◌,
  ◌++◌, ◌==◌, if◌then◌else◌, length, take, drop, Text,
}

-- `find` of a delimiter: what stands before it, and behind it.
pub find_delimiter : ℕ → Text → Option (Text × Text)
find_delimiter delimiter [] = none
find_delimiter delimiter (c ∷ s) =
    let rest = find_delimiter delimiter s in
    if c == delimiter
    then some ([], s)
    else elim rest [ none ↦ none | some (before, behind) ↦ some (c ∷ before, behind) ]

-- The `for` loop with so many rounds to go, from `i` and `left` on, and what follows it.
pub split_loop : ℕ → ℕ → ℕ → Text → List Text × ℕ
split_loop zero i delimiter s = (s ∷ [], i)
split_loop (suc n) i delimiter s = elim (find_delimiter delimiter s) [
  | none ↦ (s ∷ [], i)
  | some (segment, rest) ↦
      let (segments, count) = split_loop n (i + 1) delimiter rest in (segment ∷ segments, count)
]

-- The segments and the result. The vector of the caller is cleared first.
unfoldable pub split : Text → ℕ → ℕ → List Text × ℕ
unfolding split_loop find_delimiter
split s delimiter max_segments = split_loop (max_segments - 1) 1 delimiter s

abbrev pub is_white_space : ℕ → Bool
is_white_space c = (c == b' ') || (c == 9) || (c == 13) || (c == 10)

pub find_first_not_of : Text → Option ℕ
find_first_not_of [] = none
find_first_not_of (c ∷ s) =
    let rest = find_first_not_of s in
    if is_white_space c then elim rest [ none ↦ none | some b ↦ some (suc b) ] else some 0

pub find_last_not_of : Text → Option ℕ
find_last_not_of [] = none
find_last_not_of (c ∷ s) = elim (find_last_not_of s) [
  | some e ↦ some (suc e)
  | none ↦ if is_white_space c then none else some 0
]

-- There is a last position that is not white space wherever there is a first.
unfoldable pub trim : Text → Text
unfolding find_first_not_of find_last_not_of
trim [] = []
trim (c ∷ s) = elim (find_first_not_of (c ∷ s)) [
  | none ↦ []
  | some b ↦ elim (find_last_not_of (c ∷ s)) [
    | none ↦ drop b (c ∷ s)
    | some e ↦ take (e - b + 1) (drop b (c ∷ s))
  ]
]

-- Is a byte one of a text's?
pub contains : Text → ℕ → Bool
contains [] c = false
contains (d ∷ delim) c = (d == c) || contains delim c

-- `c_str` up to its closing zero.
unfoldable pub c_str : Text → Text
c_str [] = []
c_str (c ∷ s) = let rest = c_str s in if c == 0 then [] else c ∷ rest

-- `strtok_r`: the delimiters ahead are skipped,
pub skip : Text → Text → Text
skip delim [] = []
skip delim (c ∷ s) = let rest = skip delim s in if contains delim c then rest else c ∷ s

-- and the token ends before the next one, which is dropped.
pub token : Text → Text → Text × Text
token delim [] = ([], [])
token delim (c ∷ s) =
    let (front, rest) = token delim s in if contains delim c then ([], s) else (c ∷ front, rest)

pub strtok_r : Text → Text → Option (Text × Text)
unfolding skip token
strtok_r delim s = elim (skip delim s) [ [] ↦ none | c ∷ t ↦ some (token delim (c ∷ t)) ]

-- The `while` loop: `num` counts the tokens pushed before. It makes the next call of `strtok_r`
-- before it tests the number, and drops its token.
pub token_loop : ℕ → Text → ℤ → ℕ → Option (Text × Text) → List Text
token_loop zero delim limit num next = []
token_loop (suc fuel) delim limit num none = []
token_loop (suc fuel) delim limit num (some (tok, rest)) =
    let more = token_loop fuel delim limit (num + 1) (strtok_r delim rest) in
    tok ∷ (if eq_ℤ (pos (num + 1)) limit then [] else more)

-- Each round takes a byte at least, so the length and one round more are enough.
unfoldable pub split_tokens : Text → Text → List Text → ℤ → List Text
unfolding token_loop strtok_r c_str contains
split_tokens [] delim vec_str num = vec_str
split_tokens (c ∷ str) [] vec_str num = vec_str
split_tokens (c ∷ str) (d ∷ delim) vec_str num =
    let text = c_str (c ∷ str) in
    vec_str
    ++ token_loop (suc (length text)) (c_str (d ∷ delim)) num 0 (strtok_r (c_str (d ∷ delim)) text)

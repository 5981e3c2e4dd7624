-- ===== src/StringUtils/Tokens.antt =====
-- The tokens of `StringUtils::split` at a set of delimiters, in src/StringUtils.cpp.
use cpplib.Prelude.{
  ap, sym, ℕ, zero, suc, ◌+◌, ◌≤◌, ◌<◌, pos, negsuc, eq_ℤ_iff, false, Option, none, some, List, [],
  ◌∷◌, ◌++◌, if◌then◌else◌, length, take, Text, All, ◌≡◌, refl, arith, ◌⊎◌, inl, inr, Bool-cases,
}
use cpplib.StringUtils.{contains, c_str, skip, token, strtok_r, token_loop, split_tokens}

-- The bytes that are no delimiters.
abbrev pub kept : Text → Text → Text
kept delim [] = []
kept delim (c ∷ s) = let rest = kept delim s in if contains delim c then rest else c ∷ rest

abbrev pub concat : List Text → Text
concat [] = []
concat (s ∷ texts) = s ++ concat texts

-- A token: not empty, and no delimiter in it.
abbrev pub IsToken : Text → Text → Type 0
IsToken delim s = (0 < length s) × All (λ c. contains delim c ≡ false) s

kept-skip : (delim s : Text) → kept delim (skip delim s) ≡ kept delim s
unfolding skip
kept-skip delim [] = refl
kept-skip delim (c ∷ s) = ground (arith, kept-skip delim s)

length-skip : (delim s : Text) → length (skip delim s) ≤ length s
unfolding skip
length-skip delim [] = omega arith
length-skip delim (c ∷ s) = ground (arith, length-skip delim s)

skip_head : (delim s : Text) (c : ℕ) (t : Text) → skip delim s ≡ c ∷ t → contains delim c ≡ false
unfolding skip
skip_head delim [] c t e = cc
skip_head delim (b ∷ s) c t e = elim (Bool-cases (contains delim b)) [
  | inl h ↦ skip_head delim s c t (ground (arith, h, e))
  | inr h ↦ ground (arith, h, e)
]

kept-token : (delim s : Text) → (token delim s).0 ++ kept delim (token delim s).1 ≡ kept delim s
unfolding token
kept-token delim [] = refl
kept-token delim (c ∷ s) = ground (arith, kept-token delim s)

length-token : (delim s : Text) → length (token delim s).1 ≤ length s
unfolding token
length-token delim [] = omega arith
length-token delim (c ∷ s) = ground (arith, length-token delim s)

token_free : (delim s : Text) → All (λ c. contains delim c ≡ false) (token delim s).0
unfolding token
token_free delim [] = tt
token_free delim (c ∷ s) = elim (Bool-cases (contains delim c)) [
  | inl h ↦ rw h tt
  | inr h ↦ rw h (h, token_free delim s)
]

-- What one call of `strtok_r` does: no token and nothing but delimiters, or a token.
abbrev Next : Text → Text → Type 0
Next delim s =
    ((strtok_r delim s ≡ none) × (kept delim s ≡ []))
    ⊎ ((tok : Text) × (rest : Text) × (strtok_r delim s ≡ some (tok, rest))
        × IsToken delim tok
        × (kept delim s ≡ tok ++ kept delim rest)
        × (length rest < length s))

skip-Next : (delim s t : Text) → skip delim s ≡ t → Next delim s
unfolding strtok_r token
skip-Next delim s [] e = inl (ground (arith, e), ground (arith, e, kept-skip delim s))
skip-Next delim s (c ∷ t) e =
    let h = skip_head delim s c t e in
    inr (
      c ∷ (token delim t).0,
      (token delim t).1,
      ground (arith, e, h),
      (omega arith, (h, token_free delim t)),
      ground (arith, e, h, kept-skip delim s, kept-token delim t),
      ground (arith, e, h, length-skip delim s, length-token delim t),
    )

-- With no limit the loop finds all tokens.
token_loop_all :
    (fuel : ℕ) (delim s : Text) (num : ℕ)
    → length s < fuel
    → let tokens = token_loop fuel delim (negsuc 0) num (strtok_r delim s) in
      All (IsToken delim) tokens × (concat tokens ≡ kept delim s)
unfolding token_loop
token_loop_all zero delim s num h = absurd (omega arith)
token_loop_all (suc fuel) delim s num h = elim (skip-Next delim s (skip delim s) refl) [
  | inl (e, k) ↦ rw (e, token_loop) (tt, sym k)
  | inr (tok, rest, e, t, k, le) ↦
      let more = token_loop_all fuel delim rest (num + 1) (omega (arith, le)) in
      rw (e, token_loop) ((t, more.0), ground (arith, k, more.1))
]

token_loop-take :
    (fuel : ℕ) (delim : Text) (k num limit : ℕ) (next : Option (Text × Text))
    → limit ≡ num + suc k
    → token_loop fuel delim (pos limit) num next
      ≡ take (suc k) (token_loop fuel delim (negsuc 0) num next)
unfolding token_loop
token_loop-take zero delim k num limit next e = refl
token_loop-take (suc fuel) delim k num limit none e = refl
token_loop-take (suc fuel) delim zero num limit (some (tok, rest)) e =
    ground (arith, eq_ℤ_iff (pos (num + 1)) (pos limit))
token_loop-take (suc fuel) delim (suc k) num limit (some (tok, rest)) e = ground (
  arith,
  eq_ℤ_iff (pos (num + 1)) (pos limit),
  token_loop-take fuel delim k (num + 1) limit (strtok_r delim rest) (omega arith),
)

-- With no limit, `split` at a set of delimiters puts behind the caller's texts those tokens that
-- together are the bytes other than delimiters, in their order; each has a byte at least and no
-- delimiter. With a limit of `n`, at least one, it puts the first `n` of them there. Both texts
-- count up to their first zero byte.
pub split_tokens_all :
    (str delim : Text) (vec_str : List Text) (n : ℕ)
    → 0 < length str
    → 0 < length delim
    → 0 < n
    → (tokens : List Text) × (split_tokens str delim vec_str (negsuc 0) ≡ vec_str ++ tokens)
      × (split_tokens str delim vec_str (pos n) ≡ vec_str ++ take n tokens)
      × All (IsToken (c_str delim)) tokens
      × (concat tokens ≡ kept (c_str delim) (c_str str))
unfolding split_tokens
split_tokens_all [] delim vec_str n h k l = absurd (omega arith)
split_tokens_all (c ∷ str) [] vec_str n h k l = absurd (omega arith)
split_tokens_all (c ∷ str) (d ∷ delim) vec_str zero h k l = absurd (omega arith)
split_tokens_all (c ∷ str) (d ∷ delim) vec_str (suc n) h k l =
    let text = c_str (c ∷ str) in
    let set = c_str (d ∷ delim) in
    let all = token_loop_all (suc (length text)) set text 0 (omega arith) in
    (
      token_loop (suc (length text)) set (negsuc 0) 0 (strtok_r set text),
      refl,
      ap (λ (t : List Text). vec_str ++ t)
          (token_loop-take (suc (length text)) set n 0 (suc n) (strtok_r set text) (omega arith)),
      all.0,
      all.1,
    )

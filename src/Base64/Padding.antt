-- ===== src/Base64/Padding.antt =====
-- The checks at the start of `Base64::decrypt` in src/Base64.cpp on a text whose `=` stand at the
-- end, and the list lemmas of its arrays.
use cpplib.Prelude.{
  ℕ, zero, suc, ◌+◌, ◌≡◌, refl, true, none, some, arith, List, [], ◌∷◌, ◌++◌, All, ap, ◌∙◌, drop,
  take, length, Option-cases, inl, inr,
}
use cpplib.Base64.{all_in_alphabet, find, starts_with, search_loop, search_str, store}
use cpplib.Base64.Loops.{IsDigit}

abbrev pub equals : List ℕ
equals = b'=' ∷ []

search_loop-true : (fuel : ℕ) (key s : List ℕ) → search_loop fuel key s true ≡ true
unfolding search_loop
search_loop-true zero key s = refl
search_loop-true (suc fuel) key s = elim (Option-cases (find key s)) [
  | inl e ↦ rw (e, search_loop)
  | inr (rest, e) ↦ rw (e, search_loop) (search_loop-true fuel key rest)
]

pub find_digits : (xs ys : List ℕ) → All IsDigit xs → find equals (xs ++ ys) ≡ find equals ys
unfolding find starts_with
find_digits [] ys h = refl
find_digits (x ∷ xs) ys h = ground (arith, find_digits xs ys h.1)

search_find :
    (s : List ℕ)
    → ((find equals s ≡ none) → search_str s equals ≡ 0)
      × ((rest : List ℕ) → find equals s ≡ some rest → search_str s equals ≡ 1)
unfolding search_str
search_find [] = (λ e. refl, λ rest e. unfold find in cc)
search_find (c ∷ s) = (
  λ e. ground (arith, e),
  λ rest e. ground (arith, e, search_loop-true (length (c ∷ s)) equals rest),
)

-- No `=` at all, or one or more of them: the counter, being a `bool`, is 0 or 1.
pub search_none :
    (xs ys : List ℕ) → All IsDigit xs → find equals ys ≡ none → search_str (xs ++ ys) equals ≡ 0
search_none xs ys h e = (search_find (xs ++ ys)).0 (find_digits xs ys h ∙ e)

pub search_some :
    (xs ys rest : List ℕ)
    → All IsDigit xs
    → find equals ys ≡ some rest
    → search_str (xs ++ ys) equals ≡ 1
search_some xs ys rest h e = (search_find (xs ++ ys)).1 rest (find_digits xs ys h ∙ e)

pub alphabet-append :
    (xs ys : List ℕ)
    → All IsDigit xs
    → all_in_alphabet ys ≡ true
    → all_in_alphabet (xs ++ ys) ≡ true
unfolding all_in_alphabet
alphabet-append [] ys h k = k
alphabet-append (x ∷ xs) ys h k = ground (arith, alphabet-append xs ys h.1 k)

module _ {ℓ} {A : Type ℓ} where
  pub take-append :
      (n m : ℕ) (xs ys : List A) → n ≡ length xs + m → take n (xs ++ ys) ≡ xs ++ take m ys
  take-append n m [] ys e = let e' : n ≡ m = omega arith in ap (λ (k : ℕ). take k ys) e'
  take-append zero m (x ∷ xs) ys e = absurd (omega arith)
  take-append (suc n) m (x ∷ xs) ys e = ap (λ l. x ∷ l) (take-append n m xs ys (omega arith))

  pub drop-append : (n : ℕ) (xs ys : List A) → n ≡ length xs → drop n (xs ++ ys) ≡ ys
  drop-append zero [] ys e = refl
  drop-append (suc n) [] ys e = absurd (omega arith)
  drop-append zero (x ∷ xs) ys e = absurd (omega arith)
  drop-append (suc n) (x ∷ xs) ys e = drop-append n xs ys (omega arith)

pub store-append :
    (n : ℕ) (xs ys bytes : List ℕ)
    → n ≡ length xs
    → store (xs ++ ys) n bytes ≡ xs ++ store ys 0 bytes
unfolding store
store-append zero [] ys bytes e = refl
store-append (suc n) [] ys bytes e = absurd (omega arith)
store-append zero (x ∷ xs) ys bytes e = absurd (omega arith)
store-append (suc n) (x ∷ xs) ys bytes e =
    ap (λ l. x ∷ l) (store-append n xs ys bytes (omega arith))

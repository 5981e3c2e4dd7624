-- ===== src/StringUtils/Trim.antt =====
-- `StringUtils::trim` in src/StringUtils.cpp.
use cpplib.Prelude.{
  append-nil, append_assoc, ℕ, ◌+◌, ◌-◌, true, false, none, some, [], ◌∷◌, ◌++◌, length, take, drop,
  drop-append, Text, All, ◌≡◌, refl, arith, ◌⊎◌, inl, inr, Bool-cases, ◌∙◌, sym, ap,
}
use cpplib.StringUtils.{is_white_space, find_first_not_of, find_last_not_of, trim}

abbrev pub IsWhite : Text → Type 0
IsWhite s = All (λ c. is_white_space c ≡ true) s

-- A byte that is no white space at both ends.
abbrev pub IsTrimmed : Text → Type 0
IsTrimmed s =
    ((c : ℕ) × (rest : Text) × (s ≡ c ∷ rest) × (is_white_space c ≡ false))
    × ((front : Text) × (c : ℕ) × (s ≡ front ++ c ∷ []) × (is_white_space c ≡ false))

first_cases :
    (s : Text)
    → ((find_first_not_of s ≡ none) × IsWhite s)
      ⊎ ((white : Text) × (c : ℕ) × (rest : Text) × (find_first_not_of s ≡ some (length white))
          × (s ≡ white ++ c ∷ rest)
          × IsWhite white
          × (is_white_space c ≡ false))
unfolding find_first_not_of
first_cases [] = inl (refl, tt)
first_cases (c ∷ s) = elim (Bool-cases (is_white_space c)) [
  | inr e ↦ inr ([], c, s, ground (arith, e), refl, tt, e)
  | inl e ↦ elim (first_cases s) [
    | inl (n, w) ↦ inl (ground (arith, e, n), (e, w))
    | inr (white, b, rest, n, eq, w, live) ↦
        inr (c ∷ white, b, rest, ground (arith, e, n), ap (λ (t : Text). c ∷ t) eq, (e, w), live)
  ]
]

last_cases :
    (s : Text)
    → ((find_last_not_of s ≡ none) × IsWhite s)
      ⊎ ((front : Text) × (c : ℕ) × (white : Text) × (find_last_not_of s ≡ some (length front))
          × (s ≡ front ++ c ∷ white)
          × IsWhite white
          × (is_white_space c ≡ false))
unfolding find_last_not_of
last_cases [] = inl (refl, tt)
last_cases (c ∷ s) = elim (last_cases s) [
  | inr (front, b, white, n, eq, w, live) ↦
      inr (c ∷ front, b, white, ground (arith, n), ap (λ (t : Text). c ∷ t) eq, w, live)
  | inl (n, w) ↦ elim (Bool-cases (is_white_space c)) [
    | inr e ↦ inr ([], c, s, ground (arith, e, n), refl, w, e)
    | inl e ↦ inl (ground (arith, e, n), (e, w))
  ]
]

last-append :
    (white s : Text) (e : ℕ)
    → find_last_not_of s ≡ some e
    → find_last_not_of (white ++ s) ≡ some (length white + e)
unfolding find_last_not_of
last-append [] s e h = ground (arith, h)
last-append (c ∷ white) s e h = ground (arith, last-append white s e h)

take-front :
    (front : Text) (c : ℕ) (white : Text)
    → take (length front + 1) (front ++ c ∷ white) ≡ front ++ c ∷ []
take-front [] c white = refl
take-front (b ∷ front) c white = ground (arith, take-front front c white)

-- A text that begins with a byte that is no white space has a last one.
live_last :
    (c : ℕ) (rest : Text)
    → is_white_space c ≡ false
    → (front : Text) × (d : ℕ) × (white : Text) × (find_last_not_of (c ∷ rest)
        ≡ some (length front))
      × (c ∷ rest ≡ front ++ d ∷ white)
      × IsWhite white
      × (is_white_space d ≡ false)
live_last c rest live = elim (last_cases (c ∷ rest)) [
  | inl (n, w) ↦ absurd (ground (arith, w.0, live))
  | inr found ↦ found
]

trim_found :
    (s white front after : Text) (c d : ℕ) (rest : Text)
    → find_first_not_of s ≡ some (length white)
    → s ≡ white ++ c ∷ rest
    → find_last_not_of (c ∷ rest) ≡ some (length front)
    → c ∷ rest ≡ front ++ d ∷ after
    → trim s ≡ front ++ d ∷ []
unfolding trim
trim_found [] [] front after c d rest n eq m eq2 = cc
trim_found [] (b ∷ white) front after c d rest n eq m eq2 = cc
trim_found (b ∷ s) white front after c d rest n eq m eq2 =
    let last : find_last_not_of (b ∷ s) ≡ some (length white + length front) =
      ap find_last_not_of eq ∙ last-append white (c ∷ rest) (length front) m in
    let dropped : drop (length white) (b ∷ s) ≡ front ++ d ∷ after =
      ap (drop (length white)) eq ∙ drop-append (length white) white (c ∷ rest) refl ∙ eq2 in
    let size : length white + length front - length white + 1 ≡ length front + 1 = omega arith in
    rw (n, last, dropped, size, trim) (take-front front d after)

trim-none : (s : Text) → find_first_not_of s ≡ none → trim s ≡ []
unfolding trim
trim-none [] n = refl
trim-none (c ∷ s) n = rw (n, trim) refl

-- A text that begins and ends so is trimmed.
framed-IsTrimmed :
    (c d : ℕ) (rest front after : Text)
    → is_white_space c ≡ false
    → is_white_space d ≡ false
    → c ∷ rest ≡ front ++ d ∷ after
    → IsTrimmed (front ++ d ∷ [])
framed-IsTrimmed c d rest [] after live last eq = ((d, [], refl, last), ([], d, refl, last))
framed-IsTrimmed c d rest (b ∷ front) after live last eq =
    ((b, front ++ d ∷ [], refl, ground (arith, eq, live)), (b ∷ front, d, refl, last))

-- A text is white space, what `trim` returns, and white space; the result is empty, or its first
-- and last byte are no white space. White space is a blank, a tab, a carriage return or a newline.
pub trim_between :
    (s : Text)
    → (before : Text) × (after : Text) × (s ≡ before ++ trim s ++ after)
      × IsWhite before
      × IsWhite after
      × ((trim s ≡ []) ⊎ IsTrimmed (trim s))
trim_between s = elim (first_cases s) [
  | inl (n, w) ↦ let e = trim-none s n in (s, [], ground (arith, e, append-nil s), w, tt, inl e)
  | inr (white, c, rest, n, eq, w, live) ↦
      let (front, d, after, m, eq2, v, last) = live_last c rest live in
      let e = trim_found s white front after c d rest n eq m eq2 in
      (
        white,
        after,
        rw e (
            eq
            ∙ ap (λ (t : Text). white ++ t) (eq2 ∙ sym (append_assoc front (d ∷ []) after))
            ∙ sym (append_assoc white (front ++ d ∷ []) after)),
        w,
        v,
        inr (rw e (framed-IsTrimmed c d rest front after live last eq2)),
      )
]

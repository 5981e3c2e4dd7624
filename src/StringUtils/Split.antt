-- ===== src/StringUtils/Split.antt =====
-- The segments of `StringUtils::split` at one delimiter, in src/StringUtils.h.
use cpplib.Prelude.{
  ap, ℕ, zero, suc, ◌+◌, ◌-◌, ◌≤◌, ◌<◌, none, some, List, [], ◌∷◌, ◌++◌, ◌==◌, length, Text, All,
  ◌≡◌, ◌≢◌, refl, arith, ◌⊎◌, inl, inr, Bool-cases,
}
use cpplib.StringUtils.{find_delimiter, split_loop, split}

abbrev pub IsFree : ℕ → Text → Type 0
IsFree d s = All (λ c. c ≢ d) s

-- Segments with the delimiter between them.
abbrev pub join : ℕ → List Text → Text
join d [] = []
join d (s ∷ []) = s
join d (s ∷ t ∷ segments) = s ++ d ∷ join d (t ∷ segments)

-- All segments but the last are free of the delimiter.
abbrev pub FrontIsFree : ℕ → List Text → Type 0
FrontIsFree d [] = Unit
FrontIsFree d (s ∷ []) = Unit
FrontIsFree d (s ∷ t ∷ segments) = IsFree d s × FrontIsFree d (t ∷ segments)

find_cases :
    (d : ℕ) (s : Text)
    → ((find_delimiter d s ≡ none) × IsFree d s)
      ⊎ ((before : Text) × (behind : Text) × (find_delimiter d s ≡ some (before, behind))
          × (s ≡ before ++ d ∷ behind)
          × IsFree d before)
unfolding find_delimiter
find_cases d [] = inl (refl, tt)
find_cases d (c ∷ s) = elim (Bool-cases (c == d)) [
  | inl e ↦ inr ([], s, ground (arith, e), ground (arith, e), tt)
  | inr e ↦ elim (find_cases d s) [
    | inl (n, f) ↦ inl (ground (arith, e, n), (ground (arith, e), f))
    | inr (before, behind, n, eq, f) ↦
        inr (c ∷ before, behind, ground (arith, e, n), ground (arith, eq), (ground (arith, e), f))
  ]
]

find_free : (d : ℕ) (s rest : Text) → IsFree d s → find_delimiter d (s ++ d ∷ rest) ≡ some (s, rest)
unfolding find_delimiter
find_free d [] rest h = ground arith
find_free d (c ∷ s) rest h = ground (arith, h.0, find_free d s rest h.1)

find_none : (d : ℕ) (s : Text) → IsFree d s → find_delimiter d s ≡ none
unfolding find_delimiter
find_none d [] h = refl
find_none d (c ∷ s) h = ground (arith, h.0, find_none d s h.1)

-- What the rounds of the loop make of a text.
record IsSplit (n i d : ℕ) (s : Text) (segments : List Text) (count : ℕ) : Type 0 where
  joined : join d segments ≡ s
  counted : length segments + i ≡ count + 1
  bounded : length segments ≤ n + 1
  front : FrontIsFree d segments
  some_segment : 0 < length segments

IsSplit-one : (n i d : ℕ) (s : Text) → IsSplit n i d s (s ∷ []) i
IsSplit-one n i d s = record {
  joined = refl;
  counted = omega arith;
  bounded = omega arith;
  front = tt;
  some_segment = omega arith;
}

IsSplit-more :
    (n i d : ℕ) (before behind : Text) (segments : List Text) (count : ℕ)
    → IsFree d before
    → IsSplit n (i + 1) d behind segments count
    → IsSplit (suc n) i d (before ++ d ∷ behind) (before ∷ segments) count
IsSplit-more n i d before behind [] count f r = absurd (omega (arith, r.some_segment))
IsSplit-more n i d before behind (t ∷ segments) count f r = record {
  joined = ap (λ (u : Text). before ++ d ∷ u) r.joined;
  counted = omega (arith, r.counted);
  bounded = omega (arith, r.bounded);
  front = (f, r.front);
  some_segment = omega arith;
}

split_loop-IsSplit :
    (n i d : ℕ) (s : Text) → IsSplit n i d s (split_loop n i d s).0 (split_loop n i d s).1
unfolding split_loop
split_loop-IsSplit zero i d s = IsSplit-one 0 i d s
split_loop-IsSplit (suc n) i d s = elim (find_cases d s) [
  | inl (e, f) ↦ rw (e, split_loop) (IsSplit-one (suc n) i d s)
  | inr (before, behind, e, whole, f) ↦
      rw (e, split_loop, whole)
        (IsSplit-more n i d before behind _ _ f (split_loop-IsSplit n (i + 1) d behind))
]

-- With a limit of at least one, the segments joined by the delimiter are the text again; there are
-- as many as the result says, at least one and at most the limit, and none but the last has the
-- delimiter in it.
pub split_joins :
    (s : Text) (d max : ℕ)
    → 0 < max
    → let (segments, count) = split s d max in
      (join d segments ≡ s)
      × (length segments ≡ count)
      × (0 < count)
      × (count ≤ max)
      × FrontIsFree d segments
unfolding split
split_joins s d max h =
    let r = split_loop-IsSplit (max - 1) 1 d s in
    (
      r.joined,
      omega (arith, r.counted),
      omega (arith, r.counted, r.some_segment),
      omega (arith, r.counted, r.bounded),
      r.front,
    )

split_loop-join :
    (n i d : ℕ) (s : Text) (segments : List Text)
    → All (IsFree d) (s ∷ segments)
    → length segments ≤ n
    → split_loop n i d (join d (s ∷ segments)) ≡ (s ∷ segments, i + length segments)
unfolding split_loop
split_loop-join zero i d s [] h le = ground arith
split_loop-join zero i d s (t ∷ segments) h le = absurd (omega arith)
split_loop-join (suc n) i d s [] h le = ground (arith, find_none d s h.0)
split_loop-join (suc n) i d s (t ∷ segments) h le = ground (
  arith,
  find_free d s (join d (t ∷ segments)) h.0,
  split_loop-join n (i + 1) d t segments h.1 (omega arith),
)

-- Segments free of the delimiter, at least one and no more than the limit, are what `split` finds
-- in their join, and their number is its result.
pub split-join :
    (segments : List Text) (d max : ℕ)
    → 0 < length segments
    → length segments ≤ max
    → All (IsFree d) segments
    → split (join d segments) d max ≡ (segments, length segments)
unfolding split
split-join [] d max h le free = absurd (omega arith)
split-join (s ∷ segments) d max h le free =
    ground (arith, split_loop-join (max - 1) 1 d s segments free (omega arith))

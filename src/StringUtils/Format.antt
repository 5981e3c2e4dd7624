-- ===== src/StringUtils/Format.antt =====
-- `vform` of src/StringUtils.cpp: the buffer grows until the text fits.
use cpplib.Prelude.{
  ℕ, zero, suc, ◌+◌, ◌-◌, ◌*◌, ◌^◌, ◌==◌, false, u64, ◌≤◌, ◌<◌, ℤ, pos, negsuc, true, Option, none,
  some, if◌then◌else◌, Text, length, take, ◌≡◌, refl, sym, subst, ap, ◌⊎◌, inl, inr, Bool-cases,
  arith, ltb, [], ◌∷◌,
}
use cpplib.StringUtils.{c_str}

-- `vsnprintf` on the arguments of a call, by the size of the buffer: its result, and what the
-- buffer holds. The result is an int: `n + 1` is undefined for the largest one, which is `none`, as
-- is the end of the fuel. One unit of fuel is one round of the loop.
unfoldable pub vform_loop : (ℕ → ℤ × Text) → ℕ → ℕ → Option Text
vform_loop vsnprintf zero size = none
vform_loop vsnprintf (suc fuel) size = elim (vsnprintf size).0 [
  | pos n ↦
      let more = vform_loop vsnprintf fuel (n + 1) in
      if ltb n size then some (c_str (vsnprintf size).1) else if n == 2 ^ 31 - 1 then none else more
  | negsuc n ↦ vform_loop vsnprintf fuel (u64 (size * 2))
]

unfoldable pub vform : (ℕ → ℤ × Text) → ℕ → Option Text
unfolding vform_loop
vform vsnprintf fuel = vform_loop vsnprintf fuel 1024

-- What `vsnprintf` documents: the length of the text, with as much of it in the buffer as there is
-- room for in front of a closing zero, or by older standards -1 on a buffer that is too small.
abbrev pub Prints : Text → (ℕ → ℤ × Text) → Type 0
Prints text vsnprintf =
    (size : ℕ)
    → ((vsnprintf size).0 ≡ pos (length text)) × ((vsnprintf size).1 ≡ take (size - 1) text)
      ⊎ ((size ≤ length text) × ((vsnprintf size).0 ≡ negsuc 0))

take_whole : (n : ℕ) (s : Text) → length s ≤ n → take n s ≡ s
take_whole zero [] h = refl
take_whole zero (c ∷ s) h = absurd (omega (arith, h))
take_whole (suc n) [] h = refl
take_whole (suc n) (c ∷ s) h = ap (λ (t : Text). c ∷ t) (take_whole n s (omega (arith, h)))

module _ (text : Text) (vsnprintf : ℕ → ℤ × Text) (prints : Prints text vsnprintf)
    (whole : c_str text ≡ text) (short : length text < 2 ^ 31 - 1) where
  -- A buffer with room for the text and the zero.
  fits-vform_loop :
      (fuel size : ℕ) → length text < size → vform_loop vsnprintf (suc fuel) size ≡ some text
  unfolding vform_loop
  fits-vform_loop fuel size h = elim (prints size) [
    | inl (n, buffer) ↦
        let small : ltb (length text) size ≡ true = ground (arith, h) in
        rw (n, small, buffer, take_whole (size - 1) text (omega (arith, h)), whole, vform_loop) refl
    | inr (less, n) ↦ absurd (omega (arith, less, h))
  ]

  vform_loop-grows :
      (fuel size : ℕ)
      → 0 < size
      → length text + 1 < size + fuel
      → vform_loop vsnprintf (suc fuel) size ≡ some text
  unfolding vform_loop
  vform_loop-grows zero size p h = fits-vform_loop zero size (omega (arith, h))
  vform_loop-grows (suc fuel) size p h = elim (Bool-cases (ltb (length text) size)) [
    | inl fits ↦ fits-vform_loop (suc fuel) size (ground (arith, fits))
    | inr small ↦ elim (prints size) [
      | inl (n, buffer) ↦
          let other : (length text == 2 ^ 31 - 1) ≡ false = ground (arith, short) in
          rw (n, small, other, vform_loop) (fits-vform_loop fuel (length text + 1) (omega arith))
      | inr (less, n) ↦
          let doubled : u64 (size * 2) ≡ size * 2 = omega (arith, less, short) in
          rw (n, vform_loop)
            (subst (λ k. vform_loop vsnprintf (suc fuel) k ≡ some text) (sym doubled)
              (vform_loop-grows fuel (size * 2) (omega (arith, p)) (omega (arith, p, h))))
    ]
  ]

  -- With one round for each byte of the text and two more, `vform` ends and gives the whole text,
  -- by either convention of `vsnprintf`, if the text is shorter than 2 ^ 31 - 1 bytes and no byte of
  -- it is 0.
  pub vform_prints : vform vsnprintf (length text + 2) ≡ some text
  unfolding vform
  vform_prints =
      let more : length text + 2 ≡ suc (length text + 1) = omega arith in
      rw more (vform_loop-grows (length text + 1) 1024 (omega arith) (omega arith))

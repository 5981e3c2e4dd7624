-- ===== src/Cryptopp/Rsa/Blocks.antt =====
-- `encrypt` and `decrypt` of `X_RSA_OAEP` in src/Cryptopp.cpp end, and invert one another.
use cpplib.Prelude.{
  ℕ, zero, suc, ◌-◌, ◌<◌, ◌^◌, ◌≡◌, refl, sym, ◌∙◌, ap, Bool, true, false, Option, some, Text, [],
  ◌∷◌, ◌++◌, append_assoc, append-nil, length, length-append, take, drop, take-append, drop-append,
  u32, leb, ltb, arith, Bool-cases, Option-cases, inl, inr, subst,
}
use cpplib.StringUtils.{c_str}
use cpplib.Cryptopp.Rsa.{encrypt_loop, encrypt, decrypt_loop, decrypt}

-- What the library documents of a pair of keys with 1024 bits, for every block and every draw of
-- random bytes: 256 characters, no 0 among them, that decrypt to the block.
pub record IsPair (encrypt_block : ℕ → Text → Option Text) (decrypt_block : Text → Option Text)
    : Type 0 where
  pub size : (call : ℕ) (b c : Text) → encrypt_block call b ≡ some c → length c ≡ 256
  pub prints : (call : ℕ) (b c : Text) → encrypt_block call b ≡ some c → c_str c ≡ c
  pub inverts : (call : ℕ) (b c : Text) → encrypt_block call b ≡ some c → decrypt_block c ≡ some b

length-drop : (n : ℕ) (s : Text) → length (drop n s) ≡ length s - n
length-drop zero s = omega arith
length-drop (suc n) [] = omega arith
length-drop (suc n) (c ∷ s) = omega (arith, length-drop n s)

take-drop : (n : ℕ) (s : Text) → take n s ++ drop n s ≡ s
take-drop zero s = refl
take-drop (suc n) [] = refl
take-drop (suc n) (c ∷ s) = ap (λ (t : Text). c ∷ t) (take-drop n s)

length_zero : (s : Text) → length s ≡ 0 → s ≡ []
length_zero [] h = refl
length_zero (c ∷ s) h = absurd (omega (arith, h))

module _ (encrypt_block : ℕ → Text → Option Text) where
  encrypt_loop_ends :
      (fuel calls : ℕ) (tmp ciphertext : Text)
      → length tmp < fuel
      → (r : Bool × Text) × (encrypt_loop encrypt_block fuel calls tmp ciphertext ≡ some r)
  unfolding encrypt_loop
  encrypt_loop_ends zero calls tmp c h = absurd (omega arith)
  encrypt_loop_ends (suc fuel) calls tmp c h = elim (Bool-cases (ltb 86 (u32 (length tmp)))) [
    | inl big ↦ elim (Option-cases (encrypt_block calls (take 86 tmp))) [
      | inl e ↦ ((false, []), rw (big, e, encrypt_loop) refl)
      | inr (out, e) ↦
          let (r, ends) =
            encrypt_loop_ends fuel (suc calls) (drop 86 tmp) (c ++ out)
              (ground (arith, big, length-drop 86 tmp)) in
          (r, rw (big, e, encrypt_loop) ends)
    ]
    | inr small ↦ elim (Bool-cases (ltb 0 (u32 (length tmp)))) [
      | inl some_left ↦ elim (Option-cases (encrypt_block calls tmp)) [
        | inl e ↦ ((false, []), rw (small, some_left, e, encrypt_loop) refl)
        | inr (out, e) ↦ ((true, c ++ out), rw (small, some_left, e, encrypt_loop) refl)
      ]
      | inr none_left ↦ ((true, c), rw (small, none_left, encrypt_loop) refl)
    ]
  ]

module _ (decrypt_block : Text → Option Text) where
  decrypt_loop_ends :
      (fuel : ℕ) (tmp plaintext : Text)
      → length tmp < fuel
      → (r : Bool × Text) × (decrypt_loop decrypt_block fuel tmp plaintext ≡ some r)
  unfolding decrypt_loop
  decrypt_loop_ends zero tmp p h = absurd (omega arith)
  decrypt_loop_ends (suc fuel) tmp p h = elim (Bool-cases (leb 256 (u32 (length tmp)))) [
    | inl big ↦ elim (Option-cases (decrypt_block (c_str (take 256 tmp)))) [
      | inl e ↦ ((false, []), rw (big, e, decrypt_loop) refl)
      | inr (out, e) ↦
          let (r, ends) =
            decrypt_loop_ends fuel (drop 256 tmp) (p ++ out)
              (ground (arith, big, length-drop 256 tmp)) in
          (r, rw (big, e, decrypt_loop) ends)
    ]
    | inr small ↦ ((true, p), rw (small, decrypt_loop) refl)
  ]

-- Both loops end on every text, whatever the library gives or throws.
rsa_total :
    (encrypt_block : ℕ → Text → Option Text) (decrypt_block : Text → Option Text) (text : Text)
    → ((r : Bool × Text) × (encrypt encrypt_block text ≡ some r))
      × ((r : Bool × Text) × (decrypt decrypt_block text ≡ some r))
unfolding encrypt decrypt
rsa_total encrypt_block decrypt_block text = (
  encrypt_loop_ends encrypt_block (suc (length text)) 0 text [] (omega arith),
  decrypt_loop_ends decrypt_block (suc (length text)) text [] (omega arith),
)

module _ (decrypt_block : Text → Option Text) where
  -- One round of the decryption on a block that decrypts.
  decrypt_loop-append :
      (fuel : ℕ) (block rest m p : Text)
      → length block ≡ 256
      → c_str block ≡ block
      → decrypt_block block ≡ some m
      → length (block ++ rest) < 2 ^ 32
      → decrypt_loop decrypt_block (suc fuel) (block ++ rest) p
        ≡ decrypt_loop decrypt_block fuel rest (p ++ m)
  unfolding decrypt_loop
  decrypt_loop-append fuel block rest m p sized prints inverts small =
      let big : leb 256 (u32 (length (block ++ rest))) ≡ true =
        ground (arith, length-append block rest) in
      rw
        (
          big,
          take-append 256 block rest sized,
          prints,
          inverts,
          drop-append 256 block rest sized,
          decrypt_loop,
        )
        refl

  decrypt_loop-more :
      (fuel : ℕ) (block rest m p : Text)
      → length block ≡ 256
      → c_str block ≡ block
      → decrypt_block block ≡ some m
      → length (block ++ rest) < 2 ^ 32
      → length (block ++ rest) < fuel
      → decrypt_loop decrypt_block fuel (block ++ rest) p
        ≡ decrypt_loop decrypt_block (fuel - 1) rest (p ++ m)
  decrypt_loop-more zero block rest m p sized prints inverts small h = absurd (omega (arith, h))
  decrypt_loop-more (suc fuel) block rest m p sized prints inverts small h =
      let less : suc fuel - 1 ≡ fuel = omega arith in
      rw less (decrypt_loop-append fuel block rest m p sized prints inverts small)

  decrypt_loop-nil :
      (fuel : ℕ) (p : Text) → 0 < fuel → decrypt_loop decrypt_block fuel [] p ≡ some (true, p ++ [])
  unfolding decrypt_loop
  decrypt_loop-nil zero p h = absurd (omega (arith, h))
  decrypt_loop-nil (suc fuel) p h = ap (λ (s : Text). some (true, s)) (sym (append-nil p))

module _ (encrypt_block : ℕ → Text → Option Text) (decrypt_block : Text → Option Text)
    (pair : IsPair encrypt_block decrypt_block) where
  -- What the loop has put behind `ciphertext` decrypts to `tmp`.
  abbrev Decrypts : Text → Text → Text → Type 0
  Decrypts tmp c r =
      (out : Text) × (r ≡ c ++ out)
      × ((fuel : ℕ) (p : Text)
          → length out < fuel
          → length out < 2 ^ 32
          → decrypt_loop decrypt_block fuel out p ≡ some (true, p ++ tmp))

  Decrypts-nil : (c : Text) → Decrypts [] c c
  Decrypts-nil c =
      ([], sym (append-nil c), λ fuel p h small. decrypt_loop-nil decrypt_block fuel p h)

  Decrypts-append :
      (call : ℕ) (b rest c block r : Text)
      → encrypt_block call b ≡ some block
      → Decrypts rest (c ++ block) r
      → Decrypts (b ++ rest) c r
  Decrypts-append call b rest c block r e (out, same, back) =
      let sized = pair.size call b block e in
      let long = length-append block out in
      (
        block ++ out,
        same ∙ append_assoc c block out,
        λ fuel p h small.
            decrypt_loop-more decrypt_block fuel block out b p sized (pair.prints call b block e)
              (pair.inverts call b block e) small h
            ∙ back (fuel - 1) (p ++ b) (omega (arith, h, long, sized)) (omega (arith, small, long))
            ∙ ap (λ (s : Text). some (true, s)) (append_assoc p b rest),
      )

  encrypt_loop-Decrypts :
      (fuel calls : ℕ) (tmp c r : Text)
      → length tmp < 2 ^ 32
      → encrypt_loop encrypt_block fuel calls tmp c ≡ some (true, r)
      → Decrypts tmp c r
  unfolding encrypt_loop
  encrypt_loop-Decrypts zero calls tmp c r small e = cc
  encrypt_loop-Decrypts (suc fuel) calls tmp c r small e =
      elim (Bool-cases (ltb 86 (u32 (length tmp)))) [
        | inl big ↦ elim (Option-cases (encrypt_block calls (take 86 tmp))) [
          | inl throws ↦
              let step : encrypt_loop encrypt_block (suc fuel) calls tmp c ≡ some (false, []) =
                rw (big, throws, encrypt_loop) refl in
              cc
          | inr (out, block) ↦
              let step : encrypt_loop encrypt_block (suc fuel) calls tmp c
                  ≡ encrypt_loop encrypt_block fuel (suc calls) (drop 86 tmp) (c ++ out) =
                rw (big, block, encrypt_loop) refl in
              let rest =
                encrypt_loop-Decrypts fuel (suc calls) (drop 86 tmp) (c ++ out) r
                  (omega (arith, small, length-drop 86 tmp)) (sym step ∙ e) in
              subst (λ s. Decrypts s c r) (take-drop 86 tmp)
                (Decrypts-append calls (take 86 tmp) (drop 86 tmp) c out r block rest)
        ]
        | inr last ↦ elim (Bool-cases (ltb 0 (u32 (length tmp)))) [
          | inl more ↦ elim (Option-cases (encrypt_block calls tmp)) [
            | inl throws ↦
                let step : encrypt_loop encrypt_block (suc fuel) calls tmp c ≡ some (false, []) =
                  rw (last, more, throws, encrypt_loop) refl in
                cc
            | inr (out, block) ↦
                let step : encrypt_loop encrypt_block (suc fuel) calls tmp c
                    ≡ some (true, c ++ out) =
                  rw (last, more, block, encrypt_loop) refl in
                let same : r ≡ c ++ out = cc in
                rw same (
                  subst (λ s. Decrypts s c (c ++ out)) (append-nil tmp)
                    (Decrypts-append calls tmp [] c out (c ++ out) block (Decrypts-nil (c ++ out))))
          ]
          | inr done ↦
              let step : encrypt_loop encrypt_block (suc fuel) calls tmp c ≡ some (true, c) =
                rw (last, done, encrypt_loop) refl in
              let empty : tmp ≡ [] = length_zero tmp (ground (arith, done, small)) in
              let same : r ≡ c = cc in rw (same, empty) (Decrypts-nil c)
        ]
      ]

  -- A text of less than 2 ^ 32 bytes that `encrypt` was true on is what `decrypt` gives, true, for
  -- the ciphertext, if that has less than 2 ^ 32 characters: the blocks of 86 bytes and of 256
  -- characters fall together, and the last one is as short as it was. The library's two functions
  -- are asked for the inverse of one block, whatever random bytes it drew.
  pub rsa_inverts :
      (plaintext ciphertext : Text)
      → length plaintext < 2 ^ 32
      → length ciphertext < 2 ^ 32
      → encrypt encrypt_block plaintext ≡ some (true, ciphertext)
      → decrypt decrypt_block ciphertext ≡ some (true, plaintext)
  unfolding encrypt decrypt
  rsa_inverts plaintext ciphertext small sized e =
      let (out, same, back) =
        encrypt_loop-Decrypts (suc (length plaintext)) 0 plaintext [] ciphertext small e in
      rw same (
        back (suc (length out)) [] (omega arith)
          (omega (arith, sized, ap (λ (s : Text). length s) same)))

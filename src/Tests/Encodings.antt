-- ===== src/Tests/Encodings.antt =====
-- Base64 at concrete texts.
use cpplib.Prelude.{
  ℕ, ℤ, pos, ◌≡◌, refl, Option, none, some, List, [], ◌∷◌, ◌++◌, arith, length, codes, zero, suc,
}
use cpplib.Base64.{strlen, digits_of, encrypt, encode_group, decrypt, decode}
use cpplib.Base64.LastGroup.{padding}
use cpplib.Base64.RoundTrip.{decrypt-encrypt}
use cpplib.Base64.Errors.{decrypt-flatten}

encrypt_runs : encrypt (codes "Mane") ≡ some (pos 0, codes "TWFuZQ==")
unfolding encrypt encode_group
encrypt_runs = refl

encrypt_empty : encrypt [] ≡ none
unfolding encrypt encode_group
encrypt_empty = refl

decrypt-encrypt_example :
    decrypt (codes "TWFuZQ==") ≡ elim (strlen (digits_of (codes "TWFuZQ=="))) [
      | none ↦ none
      | some end ↦ some (pos 0, codes "Mane" ++ padding (length (codes "Mane")))
    ]
decrypt-encrypt_example =
    decrypt-encrypt (codes "Mane") (codes "TWFuZQ==") (omega arith) (omega arith) (omega arith)
      encrypt_runs (omega arith)

-- Two `=` leave a zero byte behind the text.
decrypt_runs : decrypt (codes "TWFuZQ==") ≡ some (pos 0, codes "Mane" ++ 0 ∷ [])
unfolding decrypt
decrypt_runs = refl

-- The bytes 255, 255, 255 are encrypted to four slashes, which are decrypted to zeros.
slashes_run : encrypt (255 ∷ 255 ∷ 255 ∷ []) ≡ some (pos 0, codes "////")
unfolding encrypt encode_group
slashes_run = refl

slashes_lost : decrypt (codes "////") ≡ some (pos 0, 0 ∷ 0 ∷ 0 ∷ [])
unfolding decrypt
slashes_lost = refl

-- No digit of this text is 0: `strlen` reads a cell that is not set.
man_undefined : decrypt (codes "TWFu") ≡ none
unfolding decrypt
man_undefined = refl

decrypt-flatten_example : decrypt (codes "AWAu") ≡ decrypt (codes "+W/u")
decrypt-flatten_example = decrypt-flatten (codes "+W/u")

-- 257 groups of four equal digits.
abbrev long_values : ℕ → List ℕ
long_values n = elim n [ zero ↦ [] | suc (k → more) ↦ 1 ∷ 1 ∷ 1 ∷ 1 ∷ more ]

long_result : Option (ℤ × List ℕ)
unfolding decode
long_result = decode (long_values 257) 257 0

long_bytes : List ℕ
unfolding long_result
long_bytes = elim long_result [ none ↦ [] | some (code, bytes) ↦ bytes ]

long_runs : decode (long_values 257) 257 0 ≡ some (pos 0, long_bytes)
unfolding decode long_bytes
long_runs = refl

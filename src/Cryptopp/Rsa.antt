-- ===== src/Cryptopp/Rsa.antt =====
-- `X_RSA_OAEP` of src/Cryptopp.cpp: the loops over the blocks of a text.
pub mod Blocks
use cpplib.Prelude.{
  ℕ, zero, suc, ◌+◌, ◌-◌, ◌≤◌, ◌<◌, ◌^◌, ◌≡◌, refl, sym, ◌∙◌, ap, Bool, true, false, Option, none,
  some, Text, codes, List, [], ◌∷◌, ◌++◌, append_assoc, append-nil, length, length-append, take,
  drop, u32, leb, ltb, if◌then◌else◌, arith, Bool-cases, Option-cases, inl, inr,
}
use cpplib.StringUtils.{c_str}

-- `key_path` and `key_name`, and whether each of the two encoders came to its end; the files that
-- are written, in order.
unfoldable pub generate_rsa_key : Text → Text → Bool → Bool → Bool × List Text
generate_rsa_key key_path key_name private_ends public_ends =
    let private_key_file = key_path ++ b'/' ∷ key_name ++ codes "_private.key" in
    let public_key_file = key_path ++ b'/' ∷ key_name ++ codes "_public.key" in
    if private_ends
    then (if public_ends
        then (true, private_key_file ∷ public_key_file ∷ [])
        else (false, private_key_file ∷ []))
    else (false, [])

-- The encryption of a block reads the key file and draws random bytes: the number of the call is
-- an argument. It gives hexadecimal digits, or `none` for an exception.
module _ (encrypt_block : ℕ → Text → Option Text) where
  -- One unit of fuel for each test of the loop; `calls` is the number of blocks behind.
  unfoldable pub encrypt_loop : ℕ → ℕ → Text → Text → Option (Bool × Text)
  encrypt_loop zero calls tmp ciphertext = none
  encrypt_loop (suc fuel) calls tmp ciphertext = elim (ltb 86 (u32 (length tmp))) [
    | true ↦ elim (encrypt_block calls (take 86 tmp)) [
      | none ↦ some (false, [])
      | some outblock ↦ encrypt_loop fuel (suc calls) (drop 86 tmp) (ciphertext ++ outblock)
    ]
    | false ↦ elim (ltb 0 (u32 (length tmp))) [
      | true ↦ elim (encrypt_block calls tmp) [
        | none ↦ some (false, [])
        | some outblock ↦ some (true, ciphertext ++ outblock)
      ]
      | false ↦ some (true, ciphertext)
    ]
  ]

  unfoldable pub encrypt : Text → Option (Bool × Text)
  unfolding encrypt_loop
  encrypt plaintext = encrypt_loop (suc (length plaintext)) 0 plaintext []

module _ (decrypt_block : Text → Option Text) where
  unfoldable pub decrypt_loop : ℕ → Text → Text → Option (Bool × Text)
  decrypt_loop zero tmp plaintext = none
  decrypt_loop (suc fuel) tmp plaintext = elim (leb 256 (u32 (length tmp))) [
    | true ↦ elim (decrypt_block (c_str (take 256 tmp))) [
      | none ↦ some (false, [])
      | some outblock ↦ decrypt_loop fuel (drop 256 tmp) (plaintext ++ outblock)
    ]
    | false ↦ some (true, plaintext)
  ]

  unfoldable pub decrypt : Text → Option (Bool × Text)
  unfolding decrypt_loop
  decrypt ciphertext = decrypt_loop (suc (length ciphertext)) ciphertext []

-- ===== src/Cryptopp.antt =====
-- src/Cryptopp.cpp: digests, ciphers and RSA on top of the library CryptoPP, which is not of the
-- repository. Its calls are arguments of the definitions: `none` where one throws, and otherwise
-- the bytes it leaves.
pub mod Digest
pub mod Cipher
pub mod Rsa
use cpplib.Prelude.{
  ℕ, zero, suc, ◌+◌, ◌/◌, ◌%◌, Bool, true, false, Option, none, some, List, [], ◌∷◌, ◌++◌,
  if◌then◌else◌, Text, codes, length, get_or,
}
use cpplib.StringUtils.{c_str}

abbrev pub hex : Text
hex = codes "0123456789ABCDEF"

unfoldable pub char_to_hexstring : ℕ → Text
char_to_hexstring c = get_or hex (c / 16 % 16) 0 ∷ get_or hex (c % 16) 0 ∷ []

-- The first `len` bytes of `src`, which has as many.
unfoldable pub bin_to_hexstring : Text → ℕ → Text
unfolding char_to_hexstring
bin_to_hexstring src zero = []
bin_to_hexstring [] (suc len) = []
bin_to_hexstring (c ∷ src) (suc len) = char_to_hexstring c ++ bin_to_hexstring src len

-- An array of `size` bytes, cleared by `memset`, that gets no more than `size` bytes of a text.
unfoldable pub padded : ℕ → Text → Text
padded zero s = []
padded (suc size) [] = 0 ∷ padded size []
padded (suc size) (c ∷ s) = c ∷ padded size s

module _ (calculate_digest : Text → Option Text) where
  unfoldable pub md5_calculate_digest : Text → Text → Bool × Text
  md5_calculate_digest src digest = elim (calculate_digest src) [
    | none ↦ (false, digest)
    | some buf ↦ (true, bin_to_hexstring (padded 16 buf) 16)
  ]

  unfoldable pub sha256_calculate_digest : Text → Text → Bool × Text
  sha256_calculate_digest src digest = elim (calculate_digest src) [
    | none ↦ (false, digest)
    | some buf ↦ (true, bin_to_hexstring (padded 32 buf) 32)
  ]

  unfoldable pub sha1_calculate_digest : Text → Text → Bool × Text
  sha1_calculate_digest src digest = elim (calculate_digest src) [
    | none ↦ (false, digest)
    | some buf ↦ (true, bin_to_hexstring (padded 20 buf) 20)
  ]

-- `hash` of a key, and the `HexEncoder`, upper case or not.
unfoldable pub hmacsha1_calculate_digest :
    (Text → Text → Option Text) → (Bool → Text → Text) → Text → Text → Text → Bool → Bool × Text
hmacsha1_calculate_digest hash encode key src digest uppercase = elim (hash key src) [
  | none ↦ (false, digest)
  | some mac ↦ (true, encode uppercase mac)
]

-- The array that `pDst` is left with, none if it is not assigned; `len` bytes go in.
unfoldable pub base64_encrypt : (Text → Option Text) → Text → Bool × Option Text
base64_encrypt encoder src = elim (encoder src) [
  | none ↦ (false, none)
  | some out ↦ (true, some (out ++ 0 ∷ []))
]

-- The same, with the length of what was decoded.
unfoldable pub base64_decrypt : (Text → Option Text) → Text → ℕ → Bool × Option Text × ℕ
base64_decrypt decoder src len = elim (decoder (c_str src)) [
  | none ↦ (false, none, len)
  | some out ↦ (true, some (out ++ 0 ∷ []), length out)
]

abbrev pub is_empty : Text → Bool
is_empty [] = true
is_empty (c ∷ s) = false

-- A filter in CBC mode on a key, a vector and a text: what went into its sink, and whether it
-- came to the end without an exception.
abbrev pub Filter : Type 0
Filter = Text → Text → Text → Text × Bool

unfoldable pub set_iv : ℕ → Text → Text
set_iv size [] = padded size []
set_iv size (c ∷ iv) = padded size (c ∷ iv)

-- The sink is the caller's string, which it appends to.
unfoldable pub sink : Text → Text × Bool → Bool × Text
sink text (out, ended) = (ended, text ++ out)

module _ (filter : Filter) where
  unfoldable pub aes_cbc_encrypt : Text → Text → Text → Text → Bool × Text
  unfolding sink
  aes_cbc_encrypt key plaintext ciphertext iv =
      if is_empty key
      then (false, ciphertext)
      else if is_empty plaintext
      then (false, ciphertext)
      else sink ciphertext (filter (padded 32 key) (set_iv 16 iv) plaintext)

  unfoldable pub aes_cbc_decrypt : Text → Text → Text → Text → Bool × Text
  unfolding sink
  aes_cbc_decrypt key ciphertext plaintext iv =
      if is_empty key
      then (false, plaintext)
      else if is_empty ciphertext
      then (false, plaintext)
      else sink plaintext (filter (padded 32 key) (set_iv 16 iv) ciphertext)

  unfoldable pub des_cbc_encrypt : Text → Text → Text → Text → Bool × Text
  unfolding sink
  des_cbc_encrypt key plaintext ciphertext iv =
      if is_empty key
      then (false, ciphertext)
      else if is_empty plaintext
      then (false, ciphertext)
      else sink ciphertext (filter (padded 8 key) (set_iv 8 iv) plaintext)

  unfoldable pub des_cbc_decrypt : Text → Text → Text → Text → Bool × Text
  unfolding sink
  des_cbc_decrypt key ciphertext plaintext iv =
      if is_empty key
      then (false, plaintext)
      else if is_empty ciphertext
      then (false, plaintext)
      else sink plaintext (filter (padded 8 key) (set_iv 8 iv) ciphertext)

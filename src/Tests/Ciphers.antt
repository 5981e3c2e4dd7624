-- ===== src/Tests/Ciphers.antt =====
-- Digests, ciphers and RSA, with stand-ins for the library that keep what it documents.
use cpplib.Prelude.{
  ℕ, zero, suc, ◌-◌, ◌≤◌, ◌≡◌, refl, ap, ◌∙◌, true, Option, none, some, Text, codes, [], ◌∷◌, ◌++◌,
  length, take, drop, leb, if◌then◌else◌, All, get_or, arith, leb→le, Bool-cases, inl, inr,
}
use cpplib.Cryptopp.{
  padded, set_iv, Filter, md5_calculate_digest, sha256_calculate_digest, sha1_calculate_digest,
  aes_cbc_encrypt, aes_cbc_decrypt, des_cbc_encrypt, des_cbc_decrypt, bin_to_hexstring,
}
use cpplib.StringUtils.{c_str}
use cpplib.Cryptopp.Digest.{IsByte, Spells, digests_spell}
use cpplib.Cryptopp.Cipher.{Inverts, ciphers_invert}
use cpplib.Cryptopp.Rsa.{encrypt, decrypt}
use cpplib.Cryptopp.Rsa.Blocks.{IsPair, rsa_inverts}

-- A digest that is the text, cut and padded.
abbrev digest_of : ℕ → Text → Option Text
digest_of size src = some (padded size src)

padded-IsByte : (size : ℕ) (s : Text) → All IsByte s → All IsByte (padded size s)
unfolding padded
padded-IsByte zero s h = tt
padded-IsByte (suc size) [] h = (omega arith, padded-IsByte size [] tt)
padded-IsByte (suc size) (c ∷ s) h = (h.0, padded-IsByte size s h.1)

abbrev abc : Text
abc = codes "abc"

abc-IsByte : All IsByte abc
abc-IsByte = (omega arith, (omega arith, (omega arith, tt)))

digests_spell_example :
    Spells 16 (padded 16 abc) (md5_calculate_digest (digest_of 16) abc [])
    × Spells 32 (padded 32 abc) (sha256_calculate_digest (digest_of 32) abc [])
    × Spells 20 (padded 20 abc) (sha1_calculate_digest (digest_of 20) abc [])
unfolding padded
digests_spell_example =
    digests_spell (digest_of 16) (digest_of 32) (digest_of 20) abc [] (padded 16 abc)
      (padded 32 abc) (padded 20 abc) (refl, refl, padded-IsByte 16 abc abc-IsByte)
      (refl, refl, padded-IsByte 32 abc abc-IsByte) (refl, refl, padded-IsByte 20 abc abc-IsByte)

bin_to_hexstring_runs : bin_to_hexstring (0 ∷ 171 ∷ 255 ∷ []) 3 ≡ codes "00ABFF"
unfolding bin_to_hexstring
bin_to_hexstring_runs = refl

-- A filter that puts the first bytes of the key and of the vector ahead of the text.
abbrev seal : Filter
seal key iv text = (get_or key 0 0 ∷ get_or iv 0 0 ∷ text, true)

abbrev unseal : Filter
unseal key iv text = (drop 2 text, true)

seal-Inverts : (key_size iv_size : ℕ) → Inverts key_size iv_size seal unseal
seal-Inverts key_size iv_size = record {
  fills = λ key iv text out hk hi e.
      let same : out ≡ get_or key 0 0 ∷ get_or iv 0 0 ∷ text = cc in rw same refl;
  inverts = λ key iv text out hk hi e.
      let same : out ≡ get_or key 0 0 ∷ get_or iv 0 0 ∷ text = cc in rw same refl;
}

abbrev sealed : Text
sealed = b'k' ∷ 0 ∷ abc

ciphers_invert_example :
    (aes_cbc_decrypt unseal (codes "key") sealed (codes "> ") [] ≡ (true, codes "> " ++ abc))
    × (des_cbc_decrypt unseal (codes "key") sealed (codes "> ") [] ≡ (true, codes "> " ++ abc))
unfolding aes_cbc_encrypt des_cbc_encrypt padded set_iv
ciphers_invert_example =
    ciphers_invert seal unseal seal unseal (codes "key") abc [] (codes "x") (codes "> ") sealed
      sealed (seal-Inverts 32 16) (seal-Inverts 8 8) refl refl

-- A block as its length and its bytes, all one larger, filled up with 1.
fill : ℕ → Text → Text
fill zero s = []
fill (suc n) [] = 1 ∷ fill n []
fill (suc n) (c ∷ s) = suc c ∷ fill n s

unfill : ℕ → Text → Text
unfill zero s = []
unfill (suc n) [] = []
unfill (suc n) (c ∷ s) = (c - 1) ∷ unfill n s

toy_encrypt : ℕ → Text → Option Text
unfolding fill
toy_encrypt call b = if leb (length b) 86 then some (suc (length b) ∷ fill 255 b) else none

toy_decrypt : Text → Option Text
unfolding unfill
toy_decrypt [] = none
toy_decrypt (n ∷ s) = some (unfill (n - 1) s)

toy_encrypt-some :
    (call : ℕ) (b c : Text)
    → toy_encrypt call b ≡ some c
    → (length b ≤ 86) × (c ≡ suc (length b) ∷ fill 255 b)
unfolding toy_encrypt
toy_encrypt-some call b c e = elim (Bool-cases (leb (length b) 86)) [
  | inl fits ↦
      let step : toy_encrypt call b ≡ some (suc (length b) ∷ fill 255 b) = rw fits refl in
      (leb→le (length b) 86 fits, cc)
  | inr long ↦ let step : toy_encrypt call b ≡ none = rw long refl in cc
]

length-fill : (n : ℕ) (s : Text) → length (fill n s) ≡ n
unfolding fill
length-fill zero s = refl
length-fill (suc n) [] = omega (arith, length-fill n [])
length-fill (suc n) (c ∷ s) = omega (arith, length-fill n s)

c_str-suc : (c : ℕ) (s : Text) → c_str (suc c ∷ s) ≡ suc c ∷ c_str s
unfolding c_str
c_str-suc c s = ground arith

c_str-fill : (n : ℕ) (s : Text) → c_str (fill n s) ≡ fill n s
unfolding fill c_str
c_str-fill zero s = refl
c_str-fill (suc n) [] = ap (λ (t : Text). 1 ∷ t) (c_str-fill n [])
c_str-fill (suc n) (c ∷ s) = c_str-suc c (fill n s) ∙ ap (λ (t : Text). suc c ∷ t) (c_str-fill n s)

unfill-fill : (n : ℕ) (s : Text) → length s ≤ n → unfill (length s) (fill n s) ≡ s
unfolding fill unfill
unfill-fill n [] h = refl
unfill-fill zero (c ∷ s) h = absurd (omega (arith, h))
unfill-fill (suc n) (c ∷ s) h =
    let less : suc c - 1 ≡ c = omega arith in
    rw less (ap (λ (t : Text). c ∷ t) (unfill-fill n s (omega (arith, h))))

toy-IsPair : IsPair toy_encrypt toy_decrypt
unfolding toy_decrypt c_str
toy-IsPair = record {
  size = λ call b c e.
      let (fits, same) = toy_encrypt-some call b c e in rw same (omega (arith, length-fill 255 b));
  prints = λ call b c e.
      let (fits, same) = toy_encrypt-some call b c e in
      rw same (
        c_str-suc (length b) (fill 255 b)
        ∙ ap (λ (t : Text). suc (length b) ∷ t) (c_str-fill 255 b));
  inverts = λ call b c e.
      let (fits, same) = toy_encrypt-some call b c e in
      let less : suc (length b) - 1 ≡ length b = omega arith in
      rw same (rw less (ap (λ (t : Text). some t) (unfill-fill 255 b (omega (arith, fits)))));
}

-- 90 bytes make two blocks.
abbrev ninety : Text
ninety =
    codes "ninety bytes: "
    ++ codes "one block of 86 bytes and another one with the four "
    ++ codes "bytes that are left here"

abbrev two_blocks : Text
unfolding fill
two_blocks = (87 ∷ fill 255 (take 86 ninety)) ++ 5 ∷ fill 255 (drop 86 ninety)

rsa_inverts_example : decrypt toy_decrypt two_blocks ≡ some (true, ninety)
unfolding encrypt toy_encrypt fill
rsa_inverts_example =
    rsa_inverts toy_encrypt toy_decrypt toy-IsPair ninety two_blocks (omega arith) (omega arith)
      refl

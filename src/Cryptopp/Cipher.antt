-- ===== src/Cryptopp/Cipher.antt =====
-- The ciphers in CBC mode of src/Cryptopp.cpp, there and back.
use cpplib.Prelude.{
  ℕ, zero, suc, ◌≡◌, refl, ap, Bool, true, false, Text, [], ◌∷◌, ◌++◌, length, if◌then◌else◌, arith,
}
use cpplib.Cryptopp.{
  Filter, is_empty, padded, set_iv, sink, aes_cbc_encrypt, aes_cbc_decrypt, des_cbc_encrypt,
  des_cbc_decrypt,
}

-- What the library documents of its two filters: on a key and a vector of the right sizes, what
-- the encryption ends with is padded to at least one block, and decrypts to the text it came from.
pub record Inverts (key_size iv_size : ℕ) (encrypt decrypt : Filter) : Type 0 where
  pub fills :
      (key iv text out : Text)
      → length key ≡ key_size
      → length iv ≡ iv_size
      → encrypt key iv text ≡ (out, true)
      → is_empty out ≡ false
  pub inverts :
      (key iv text out : Text)
      → length key ≡ key_size
      → length iv ≡ iv_size
      → encrypt key iv text ≡ (out, true)
      → decrypt key iv out ≡ (text, true)

length-padded : (size : ℕ) (s : Text) → length (padded size s) ≡ size
unfolding padded
length-padded zero s = refl
length-padded (suc size) [] = omega (arith, length-padded size [])
length-padded (suc size) (c ∷ s) = omega (arith, length-padded size s)

length-set_iv : (size : ℕ) (iv : Text) → length (set_iv size iv) ≡ size
unfolding set_iv
length-set_iv size [] = length-padded size []
length-set_iv size (c ∷ iv) = length-padded size (c ∷ iv)

cancel : (s t u : Text) → s ++ t ≡ s ++ u → t ≡ u
cancel [] t u e = e
cancel (c ∷ s) t u e = cancel s t u cc

-- What the four methods share.
abbrev cbc : ℕ → ℕ → Filter → Text → Text → Text → Text → Bool × Text
cbc key_size iv_size filter key text into iv =
    if is_empty key
    then (false, into)
    else if is_empty text
    then (false, into)
    else sink into (filter (padded key_size key) (set_iv iv_size iv) text)

sink-true :
    (into out : Text) (r : Text × Bool) → sink into r ≡ (true, into ++ out) → r ≡ (out, true)
unfolding sink
sink-true into out (o, b) e =
    let same : o ≡ out = cancel into o out (ap (λ (x : Bool × Text). x.1) e) in
    let ends : b ≡ true = ap (λ (x : Bool × Text). x.0) e in rw (same, ends) refl

-- The guards that the parameters have passed where the result is true.
cbc-true :
    (key_size iv_size : ℕ) (filter : Filter) (key text iv into out : Text)
    → cbc key_size iv_size filter key text into iv ≡ (true, into ++ out)
    → (is_empty key ≡ false) × (filter (padded key_size key) (set_iv iv_size iv) text ≡ (out, true))
cbc-true key_size iv_size filter [] text iv into out e = cc
cbc-true key_size iv_size filter (k ∷ key) [] iv into out e = cc
cbc-true key_size iv_size filter (k ∷ key) (c ∷ text) iv into out e =
    (refl, sink-true into out (filter _ _ (c ∷ text)) e)

module _ (key_size iv_size : ℕ) (encrypt decrypt : Filter) (key plain iv : Text) where
  cbc-Inverts :
      (from into out : Text)
      → Inverts key_size iv_size encrypt decrypt
      → cbc key_size iv_size encrypt key plain from iv ≡ (true, from ++ out)
      → cbc key_size iv_size decrypt key out into iv ≡ (true, into ++ plain)
  unfolding sink
  cbc-Inverts from into out law e =
      let (given, ends) = cbc-true key_size iv_size encrypt key plain iv from out e in
      let sized = length-padded key_size key in
      let iv_sized = length-set_iv iv_size iv in
      let full = law.fills _ _ plain out sized iv_sized ends in
      let back = law.inverts _ _ plain out sized iv_sized ends in rw (given, full, back) refl

-- For AES and DES alike: where the encryption is true with `out` behind the caller's text, the
-- decryption of `out` with the same key and vector is true, with the plain text behind the text
-- that its caller had, if the library's two filters invert one another on keys of 32 or 8 bytes and
-- vectors of 16 or 8. The key and the vector may have any length: both sides cut or pad them alike.
pub ciphers_invert :
    (aes unaes des undes : Filter) (key plain iv from into out out' : Text)
    → Inverts 32 16 aes unaes
    → Inverts 8 8 des undes
    → aes_cbc_encrypt aes key plain from iv ≡ (true, from ++ out)
    → des_cbc_encrypt des key plain from iv ≡ (true, from ++ out')
    → (aes_cbc_decrypt unaes key out into iv ≡ (true, into ++ plain))
      × (des_cbc_decrypt undes key out' into iv ≡ (true, into ++ plain))
unfolding aes_cbc_encrypt aes_cbc_decrypt des_cbc_encrypt des_cbc_decrypt
ciphers_invert aes unaes des undes key plain iv from into out out' h k e f = (
  cbc-Inverts 32 16 aes unaes key plain iv from into out h e,
  cbc-Inverts 8 8 des undes key plain iv from into out' k f,
)

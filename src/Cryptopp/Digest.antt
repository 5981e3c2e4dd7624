-- ===== src/Cryptopp/Digest.antt =====
-- The digests of src/Cryptopp.cpp, read back from their hexadecimal digits.
use cpplib.Prelude.{
  ℕ, ◌+◌, ◌-◌, ◌*◌, ◌<◌, ◌/◌, ◌%◌, Bool, true, Option, some, [], ◌∷◌, ◌++◌, ltb, if◌then◌else◌, ◌≡◌,
  refl, ap, arith, Text, length, All, get_or, ◌==◌, sym, ◌∙◌,
}
use cpplib.Base64.Bits.{holds_below, holds_below-lt}
use cpplib.Cryptopp.{
  hex, char_to_hexstring, bin_to_hexstring, padded, md5_calculate_digest, sha256_calculate_digest,
  sha1_calculate_digest,
}

-- The value of a digit, and the bytes of pairs of digits.
abbrev digit : ℕ → ℕ
digit c = if ltb c b'A' then c - b'0' else c - b'A' + 10

abbrev pub unhex : Text → Text
unhex [] = []
unhex (a ∷ []) = []
unhex (a ∷ b ∷ s) = (digit a * 16 + digit b) ∷ unhex s

abbrev pub IsByte : ℕ → Type 0
IsByte c = c < 256

good_hex : ℕ → Bool
good_hex a = digit (get_or hex a 0) == a

good_hexes : holds_below 16 good_hex ≡ true
unfolding holds_below good_hex
good_hexes = refl

digit-hex : (a : ℕ) → a < 16 → digit (get_or hex a 0) ≡ a
unfolding good_hex
digit-hex a h = ground (arith, holds_below-lt 16 good_hex a good_hexes h)

unhex-char_to_hexstring :
    (c : ℕ) (s : Text) → c < 256 → unhex (char_to_hexstring c ++ s) ≡ c ∷ unhex s
unfolding char_to_hexstring
unhex-char_to_hexstring c s h =
    let high = digit-hex (c / 16 % 16) (omega arith) in
    let low = digit-hex (c % 16) (omega arith) in
    ap (λ (a : ℕ). a ∷ unhex s) (omega (arith, high, low))

-- The digits of bytes are two for each, and spell the bytes.
pub unhex-bin_to_hexstring :
    (buf : Text)
    → All IsByte buf
    → (unhex (bin_to_hexstring buf (length buf)) ≡ buf)
      × (length (bin_to_hexstring buf (length buf)) ≡ 2 * length buf)
unfolding bin_to_hexstring
unhex-bin_to_hexstring [] h = (refl, refl)
unhex-bin_to_hexstring (c ∷ buf) h =
    let (same, long) = unhex-bin_to_hexstring buf h.1 in
    (
      unhex-char_to_hexstring c (bin_to_hexstring buf (length buf)) h.0
          ∙ ap (λ (s : Text). c ∷ s) same,
      omega (arith, long),
    )

padded_all : (buf : Text) → padded (length buf) buf ≡ buf
unfolding padded
padded_all [] = refl
padded_all (c ∷ buf) = ap (λ (s : Text). c ∷ s) (padded_all buf)

-- What the library documents: it leaves as many bytes as the digest has.
abbrev pub Hashes : (Text → Option Text) → Text → ℕ → Text → Type 0
Hashes calculate_digest src size buf =
    (calculate_digest src ≡ some buf) × (length buf ≡ size) × All IsByte buf

-- A result that the caller can turn back into the bytes of the digest.
abbrev pub Spells : ℕ → Text → Bool × Text → Type 0
Spells size buf (ok, digest) = (ok ≡ true) × (length digest ≡ 2 * size) × (unhex digest ≡ buf)

padded-Spells :
    (size : ℕ) (buf : Text)
    → length buf ≡ size
    → All IsByte buf
    → Spells size buf (true, bin_to_hexstring (padded size buf) size)
padded-Spells size buf e h =
    let (same, long) = unhex-bin_to_hexstring buf h in rw (sym e, padded_all buf) (refl, long, same)

-- Where the library does not throw, and leaves the 16, 32 and 20 bytes it documents, the three
-- digests are true and in place of the caller's text have two digits for each of the bytes,
-- which spell them: no two digests look the same.
pub digests_spell :
    (md5 sha256 sha1 : Text → Option Text) (src digest a b c : Text)
    → Hashes md5 src 16 a
    → Hashes sha256 src 32 b
    → Hashes sha1 src 20 c
    → Spells 16 a (md5_calculate_digest md5 src digest)
      × Spells 32 b (sha256_calculate_digest sha256 src digest)
      × Spells 20 c (sha1_calculate_digest sha1 src digest)
unfolding md5_calculate_digest sha256_calculate_digest sha1_calculate_digest
digests_spell md5 sha256 sha1 src digest a b c ha hb hc =
    rw (ha.0, hb.0, hc.0, md5_calculate_digest, sha256_calculate_digest, sha1_calculate_digest)
      (padded-Spells 16 a ha.1 ha.2, padded-Spells 32 b hb.1 hb.2, padded-Spells 20 c hc.1 hc.2)

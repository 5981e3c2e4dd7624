-- ===== src/Base64/RoundTrip.antt =====
-- `Base64::decrypt` of src/Base64.cpp after `Base64::encrypt`.
use mathlib.Core.List.{map-append}
use cpplib.Prelude.{
  ℕ, zero, suc, ◌+◌, ◌-◌, ◌*◌, ◌/◌, ◌%◌, ◌^◌, ◌<◌, ◌≤◌, ◌≡◌, refl, true, false, ltb, leb, none,
  some, Option-cases, inl, inr, arith, pos, List, [], ◌∷◌, ◌++◌, map, All, ap, sym, ◌∙◌, take,
  length, length-append, append_assoc, if◌then◌else◌, ◌==◌, subst,
}
use cpplib.Base64.{
  strlen, digits_of, get_base64_value, encode_last, decode_last, encrypt, decrypt, decode, store,
  zeros, group_count, rounds, last_id, search_str, all_in_alphabet,
}
use cpplib.Base64.Digits.{IsPlain}
use cpplib.Base64.Loops.{IsByte, Trip, trip}
use cpplib.Base64.LastGroup.{padding, Last, Last-cases, All-split}
use cpplib.Base64.Padding.{equals, alphabet-append, take-append, drop-append, store-append}

length-map : (f : ℕ → ℕ) (xs : List ℕ) → length (map f xs) ≡ length xs
length-map f [] = refl
length-map f (x ∷ xs) = ap suc (length-map f xs)

rounds-suc : (n : ℕ) → n < 2 ^ 32 - 1 → rounds (suc n) ≡ n
rounds-suc n h = omega arith

last_id-suc : (n : ℕ) → n < 256 → last_id (suc n) ≡ n
last_id-suc n h = omega arith

-- Decoding the groups of a trip and one more.
module _ (n : ℕ) (src : List ℕ) (t : Trip n src) (plain : All IsPlain t.text)
    (small : n < 256) where
  decode-Trip :
      (eq k : ℕ) (tail bytes : List ℕ)
      → eq + k ≡ 3
      → decode_last eq tail ≡ some bytes
      → decode (map get_base64_value t.text ++ tail) (suc n) eq
        ≡ some (pos 0, t.front ++ store (zeros k) 0 bytes)
  unfolding decode
  decode-Trip eq k tail bytes e last =
      let room : suc n * 3 - eq - length t.front ≡ k = omega (arith, t.front_length) in
      ground (
        arith,
        rounds-suc n (omega arith),
        last_id-suc n small,
        t.decodes plain tail,
        drop-append (n * 4) (map get_base64_value t.text) tail
            (omega (arith, length-map get_base64_value t.text, t.text_length)),
        last,
        room,
        store-append (n * 3) t.front (zeros k) bytes (omega (arith, t.front_length)),
      )

  digits-Trip :
      (eq k : ℕ) (last bytes : List ℕ)
      → eq + k ≡ 3
      → eq ≤ 1
      → length last ≡ 4
      → all_in_alphabet last ≡ true
      → search_str (t.text ++ last) equals ≡ eq
      → decode_last eq (map get_base64_value (take (suc k) last)) ≡ some bytes
      → decode
          (digits_of (t.text ++ last))
          (length (t.text ++ last) / 4)
          (search_str (t.text ++ last) equals)
        ≡ some (pos 0, t.front ++ store (zeros k) 0 bytes)
  digits-Trip eq k last bytes e one four good found dec =
      let size = length-append t.text last in
      let quads : length (t.text ++ last) / 4 ≡ suc n = omega (arith, t.text_length) in
      let cut = take-append (length (t.text ++ last) - eq) (suc k) t.text last (omega arith) in
      ground (
        arith,
        found,
        quads,
        cut,
        map-append get_base64_value t.text (take (suc k) last),
        decode-Trip eq k (map get_base64_value (take (suc k) last)) bytes e dec,
      )

store-nil : (xs : List ℕ) (i : ℕ) → store xs i [] ≡ xs
unfolding store
store-nil [] i = refl
store-nil (x ∷ xs) zero = refl
store-nil (x ∷ xs) (suc i) = ap (λ l. x ∷ l) (store-nil xs i)

-- The zero that `strlen` found is stored again.
store-strlen : (xs : List ℕ) (i : ℕ) → strlen xs ≡ some i → store xs i (0 ∷ []) ≡ xs
unfolding store strlen
store-strlen [] i e = absurd cc
store-strlen (zero ∷ xs) zero e = ap (λ (l : List ℕ). 0 ∷ l) (store-nil xs 0)
store-strlen (zero ∷ xs) (suc i) e = absurd (ground (arith, e))
store-strlen (suc c ∷ xs) i e = elim (Option-cases (strlen xs)) [
  | inl bad ↦ absurd (ground (arith, bad, e))
  | inr (k, good) ↦
      let next : suc k ≡ i = ground (arith, good, e) in
      subst (λ l. store (suc c ∷ xs) l (0 ∷ []) ≡ suc c ∷ xs) next
        (ap (λ l. suc c ∷ l) (store-strlen xs k good))
]

search_le : (s : List ℕ) → search_str s equals ≤ 1
unfolding search_str
search_le [] = omega arith
search_le (c ∷ s) = ground arith

-- A text that passes the checks.
decrypt-decode :
    (s : List ℕ)
    → length s % 4 ≡ 0
    → length s < 2 ^ 32
    → all_in_alphabet s ≡ true
    → decrypt s ≡ elim (strlen (digits_of s)) [
      | none ↦ none
      | some end ↦ decode (digits_of s) (length s / 4) (search_str s equals)
    ]
unfolding decrypt
decrypt-decode s whole fits good =
    let quads : ltb 0 (length s % 4) ≡ false = ground (arith, whole) in
    let counted : leb (2 ^ 32) (length s) ≡ false = ground (arith, fits) in
    let few : ltb 2 (search_str s equals) ≡ false = ground (arith, search_le s) in
    elim (Option-cases (strlen (digits_of s))) [
      | inl bad ↦ rw (quads, counted, good, few, bad, decrypt) refl
      | inr (end, found) ↦
          rw (quads, counted, good, few, found, store-strlen (digits_of s) end found, decrypt) refl
    ]

module _ (n : ℕ) (src : List ℕ) (t : Trip n src) (small : n < 2 ^ 32 - 1) where
  encrypt-Trip :
      (k : ℕ) (last : List ℕ)
      → group_count (length src) ≡ suc n
      → length src % 3 ≡ k
      → encode_last k t.rest ≡ some last
      → encrypt src ≡ some (pos 0, t.text ++ last)
  unfolding encrypt
  encrypt-Trip k last count rem enc = ground (arith, count, rem, enc, rounds-suc n small, t.encodes)

-- A text that is not empty, cut into its last group of one to three bytes and the groups before.
record Pieces (src : List ℕ) : Type 0 where
  n : ℕ
  front : Trip n src
  last : Last front.rest
  rest_length : length src ≡ n * 3 + length front.rest
  rest_pos : 0 < length front.rest
  rest_le : length front.rest ≤ 3

pieces : (src : List ℕ) → All IsByte src → 0 < length src → Pieces src
pieces src h lo =
    let n = (length src - 1) / 3 in
    let t = trip n src h (omega arith) in
    let size = length-append t.front t.rest in
    let total : length src ≡ n * 3 + length t.rest =
      omega (arith, ap length t.splits, size, t.front_length) in
    record {
      n = n;
      front = t;
      last =
          Last-cases t.rest (All-split IsByte t.front t.rest (subst (All IsByte) t.splits h)).1
            (omega arith) (omega arith);
      rest_length = total;
      rest_pos = omega arith;
      rest_le = omega arith;
    }

store-zeros : (bytes : List ℕ) (k : ℕ) → length bytes ≡ k → store (zeros k) 0 bytes ≡ bytes
unfolding store
store-zeros [] zero e = refl
store-zeros [] (suc k) e = absurd (omega arith)
store-zeros (x ∷ bytes) zero e = absurd (omega arith)
store-zeros (x ∷ bytes) (suc k) e = ap (λ l. x ∷ l) (store-zeros bytes k (omega arith))

length-padding :
    (bytes : List ℕ)
    → 0 < length bytes
    → length bytes ≤ 3
    → (if length bytes == 3 then 0 else 1) + length (bytes ++ padding (length bytes)) ≡ 3
length-padding [] lo hi = absurd (omega arith)
length-padding (a ∷ []) lo hi = refl
length-padding (a ∷ b ∷ []) lo hi = refl
length-padding (a ∷ b ∷ c ∷ []) lo hi = refl
length-padding (a ∷ b ∷ c ∷ d ∷ bytes) lo hi = absurd (omega arith)

four_or_three :
    (bytes : List ℕ)
    → 0 < length bytes
    → length bytes ≤ 3
    → (if length bytes == 3 then 4 else 3) ≡ suc (length (bytes ++ padding (length bytes)))
four_or_three bytes lo hi = ground (arith, length-padding bytes lo hi)

group_count-Pieces : (src : List ℕ) (p : Pieces src) → group_count (length src) ≡ suc p.n
group_count-Pieces src p = ground (arith, p.rest_length, p.rest_pos, p.rest_le)

module _ (src : List ℕ) (p : Pieces src) where
  pieces-encrypt : length src < 2 ^ 32 → encrypt src ≡ some (pos 0, p.front.text ++ p.last.0)
  pieces-encrypt fits =
      encrypt-Trip p.n src p.front (omega (arith, p.rest_length, p.rest_pos))
        (length p.front.rest % 3) p.last.0 (group_count-Pieces src p) (omega (arith, p.rest_length))
        p.last.1

  pieces-decode :
      length src ≤ 768
      → All IsPlain (p.front.text ++ p.last.0)
      → decode
          (digits_of (p.front.text ++ p.last.0))
          (length (p.front.text ++ p.last.0) / 4)
          (search_str (p.front.text ++ p.last.0) equals)
        ≡ some (pos 0, src ++ padding (length src))
  pieces-decode small plain =
      let t = p.front in
      let bytes = t.rest ++ padding (length t.rest) in
      let (plain_text, plain_last) = All-split IsPlain t.text p.last.0 plain in
      let same : padding (length t.rest) ≡ padding (length src) = ground (arith, p.rest_length) in
      let whole : t.front ++ bytes ≡ src ++ padding (length src) =
        sym (append_assoc t.front t.rest (padding (length t.rest))) ∙ cc (t.splits, same) in
      digits-Trip p.n src t plain_text (omega (arith, p.rest_length, p.rest_pos))
        (if length t.rest == 3 then 0 else 1) (length bytes) p.last.0 bytes
        (length-padding t.rest p.rest_pos p.rest_le) (ground arith) p.last.2 p.last.3
        (p.last.4 t.text t.digits)
        (subst
          (λ k.
            decode_last (if length t.rest == 3 then 0 else 1)
              (map get_base64_value (take k p.last.0))
            ≡ some bytes)
          (four_or_three t.rest p.rest_pos p.rest_le) (p.last.5 plain_last))
      ∙ ap (λ b. some (pos 0, b)) (ap (◌++◌ t.front) (store-zeros bytes _ refl) ∙ whole)

-- `encrypt` succeeds on every text of at least one byte, with four characters of the alphabet for
-- each three bytes begun. The text has less than 2 ^ 32 bytes, as its length is an unsigned int.
pub encrypt_total :
    (src : List ℕ)
    → All IsByte src
    → 0 < length src
    → length src < 2 ^ 32
    → (text : List ℕ) × (encrypt src ≡ some (pos 0, text))
      × (length text ≡ group_count (length src) * 4)
      × (all_in_alphabet text ≡ true)
encrypt_total src h lo fits =
    let p = pieces src h lo in
    (
      p.front.text ++ p.last.0,
      pieces-encrypt src p fits,
      omega (
        arith,
        length-append p.front.text p.last.0,
        p.front.text_length,
        p.last.2,
        group_count-Pieces src p,
      ),
      alphabet-append p.front.text p.last.0 p.front.digits p.last.3,
    )

-- `decrypt` of what `encrypt` made of one to 768 bytes, where the text has neither `+` nor `/`: if one
-- of the digits that it decodes is 0, that of an `A` or of the `=` that it keeps of two, it gives the
-- bytes back, with one zero byte more where two `=` close the text. If none is, `strlen` reads
-- behind the digits that were stored, and there is no result.
pub decrypt-encrypt :
    (src text : List ℕ)
    → All IsByte src
    → 0 < length src
    → length src ≤ 768
    → encrypt src ≡ some (pos 0, text)
    → All IsPlain text
    → decrypt text ≡ elim (strlen (digits_of text)) [
      | none ↦ none
      | some end ↦ some (pos 0, src ++ padding (length src))
    ]
decrypt-encrypt src text h lo small enc plain =
    let p = pieces src h lo in
    let same : p.front.text ++ p.last.0 ≡ text = cc (pieces-encrypt src p (omega arith), enc) in
    let (other, made, size, good) = encrypt_total src h lo (omega arith) in
    let own : other ≡ text = cc (made, enc) in
    let long : length text ≡ group_count (length src) * 4 = omega (arith, ap length own, size) in
    let whole : length text % 4 ≡ 0 = omega (arith, long) in
    let fits : length text < 2 ^ 32 = ground (arith, long, small) in
    let decoded =
      subst
        (λ l.
          decode (digits_of l) (length l / 4) (search_str l equals)
          ≡ some (pos 0, src ++ padding (length src)))
        same (pieces-decode src p small (rw same plain)) in
    let checks = decrypt-decode text whole fits (subst (λ l. all_in_alphabet l ≡ true) own good) in
    elim (Option-cases (strlen (digits_of text))) [
      | inl bad ↦ ground (arith, checks, bad)
      | inr (end, found) ↦ ground (arith, checks, found, decoded)
    ]

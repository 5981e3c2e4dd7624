-- ===== src/Base64/Long.antt =====
-- `Base64::decrypt` of src/Base64.cpp on long texts: `last_id` is an unsigned char.
use cpplib.Prelude.{
  ℕ, zero, suc, ◌+◌, ◌-◌, ◌*◌, ◌^◌, ◌<◌, ◌≤◌, ◌≡◌, refl, some, arith, Option-cases, inl, inr, pos,
  List, [], ◌∷◌, ◌++◌, ap, ◌∙◌, drop, length,
}
use cpplib.Base64.{decode, decode_loop, decode_last, store, zeros, rounds, last_id}
use cpplib.Base64.Padding.{drop-append}

drop-store :
    (n i : ℕ) (xs bytes : List ℕ) → i + length bytes ≤ n → drop n (store xs i bytes) ≡ drop n xs
unfolding store
drop-store n i [] bytes h = refl
drop-store n zero (x ∷ xs) [] h = refl
drop-store zero zero (x ∷ xs) (b ∷ bytes) h = absurd (omega arith)
drop-store (suc n) zero (x ∷ xs) (b ∷ bytes) h = drop-store n zero xs bytes (omega arith)
drop-store zero (suc i) (x ∷ xs) bytes h = absurd (omega arith)
drop-store (suc n) (suc i) (x ∷ xs) bytes h = drop-store n i xs bytes (omega arith)

length-decode_loop :
    (n : ℕ) (values out : List ℕ) → decode_loop n values ≡ some out → length out ≡ n * 3
unfolding decode_loop
length-decode_loop zero values out e = ground (arith, e)
length-decode_loop (suc n) (a ∷ b ∷ c ∷ d ∷ rest) out e = elim (Option-cases (decode_loop n rest)) [
  | inl bad ↦ ground (arith, bad, e)
  | inr (out', good) ↦ ground (arith, good, e, length-decode_loop n rest out' good)
]
length-decode_loop (suc n) [] out e = cc
length-decode_loop (suc n) (a ∷ []) out e = cc
length-decode_loop (suc n) (a ∷ b ∷ []) out e = cc
length-decode_loop (suc n) (a ∷ b ∷ c ∷ []) out e = cc

length-decode_last :
    (eq : ℕ) (values last : List ℕ) → decode_last eq values ≡ some last → length last ≤ 3
unfolding decode_last
length-decode_last zero (a ∷ b ∷ c ∷ d ∷ rest) last e = ground (arith, e)
length-decode_last (suc zero) (a ∷ b ∷ c ∷ rest) last e = ground (arith, e)
length-decode_last (suc (suc zero)) (a ∷ b ∷ rest) last e = ground (arith, e)
length-decode_last _ _ last e = cc

-- On more than 256 groups the last group is not decoded: whatever its digits, the cells that
-- belong to it are still zero when `decrypt` returns.
pub decode_long :
    (values out : List ℕ) (count eq : ℕ)
    → 256 < count
    → count < 2 ^ 32
    → decode values count eq ≡ some (pos 0, out)
    → drop ((count - 1) * 3) out ≡ zeros (3 - eq)
unfolding decode
decode_long values out count eq h fits e = elim (Option-cases (decode_loop (rounds count) values)) [
  | inl bad ↦ ground (arith, bad, e)
  | inr (front, good) ↦ elim (Option-cases (decode_last eq (drop (last_id count * 4) values))) [
    | inl bad ↦ ground (arith, bad, good, e)
    | inr (last, fine) ↦
        let size = length-decode_loop (rounds count) values front good in
        let room : count * 3 - eq - length front ≡ 3 - eq = omega (arith, size) in
        let stored : drop ((count - 1) * 3)
              (store (front ++ zeros (count * 3 - eq - length front)) (last_id count * 3) last)
            ≡ zeros (3 - eq) =
          drop-store _ (last_id count * 3) _ last
            (omega (arith, length-decode_last eq (drop (last_id count * 4) values) last fine))
          ∙ drop-append _ front (zeros (count * 3 - eq - length front)) (omega (arith, size))
          ∙ ap zeros room in
        ground (arith, good, fine, e, stored)
  ]
]

-- ===== src/SessionMgt/Uid.antt =====
-- The ids of `SessionMgt::gen_uid` in src/SessionMgt/SessionMgt.cpp are told apart by the counter.
use cpplib.Prelude.{
  ℕ, ◌+◌, ◌≤◌, ◌<◌, ◌^◌, ◌≡◌, ◌≢◌, refl, sym, ◌∙◌, [], ◌∷◌, ◌++◌, append_assoc, Text, u64, arith,
  All, subst,
}
use cpplib.Decimal.{to_string, IsDecimal, to_string-IsDecimal, to_string_injective}
use cpplib.SessionMgt.{gen_uid}

no_underscore : (q e : Text) → All IsDecimal (q ++ b'_' ∷ e) → ⊥
no_underscore [] e h = h.0 refl
no_underscore (c ∷ q) e h = no_underscore q e h.1

-- What stands behind the last underscore.
last_part :
    (p q d e : Text) → All IsDecimal d → All IsDecimal e → p ++ b'_' ∷ d ≡ q ++ b'_' ∷ e → d ≡ e
last_part [] [] d e hd he h = cc
last_part [] (c ∷ q) d e hd he h =
    let same : d ≡ q ++ b'_' ∷ e = cc in absurd (no_underscore q e (subst (All IsDecimal) same hd))
last_part (c ∷ p) [] d e hd he h =
    let same : e ≡ p ++ b'_' ∷ d = cc in absurd (no_underscore p d (subst (All IsDecimal) same he))
last_part (c ∷ p) (b ∷ q) d e hd he h = last_part p q d e hd he cc

-- An id that the counter has reached.
abbrev pub IsNumbered : ℕ → Text → Type 0
IsNumbered uid id = (p : Text) × (k : ℕ) × (k ≤ uid) × (id ≡ p ++ b'_' ∷ to_string k)

pub gen_uid-last :
    (uid : ℕ) (prefix : Text) (second : ℕ)
    → uid + 1 < 2 ^ 64
    → (gen_uid uid prefix second).1
      ≡ (prefix ++ b'_' ∷ to_string second) ++ b'_' ∷ to_string (uid + 1)
unfolding gen_uid
gen_uid-last uid prefix second h =
    let next : u64 (uid + 1) ≡ uid + 1 = omega arith in
    rw next (sym (append_assoc prefix (b'_' ∷ to_string second) (b'_' ∷ to_string (uid + 1))))

pub gen_uid_counts :
    (uid : ℕ) (prefix : Text) (second : ℕ)
    → uid + 1 < 2 ^ 64
    → (gen_uid uid prefix second).0 ≡ uid + 1
unfolding gen_uid
gen_uid_counts uid prefix second h = omega arith

pub gen_uid-IsNumbered :
    (uid : ℕ) (prefix : Text) (second : ℕ)
    → uid + 1 < 2 ^ 64
    → IsNumbered (uid + 1) (gen_uid uid prefix second).1
gen_uid-IsNumbered uid prefix second h =
    (prefix ++ b'_' ∷ to_string second, uid + 1, omega arith, gen_uid-last uid prefix second h)

-- A new id differs from every id that the counter has reached.
pub gen_uid-ne :
    (uid : ℕ) (prefix id : Text) (second : ℕ)
    → uid + 1 < 2 ^ 64
    → IsNumbered uid id
    → (gen_uid uid prefix second).1 ≢ id
gen_uid-ne uid prefix id second h (p, k, le, e) same =
    let digits =
      last_part _ p (to_string (uid + 1)) (to_string k) (to_string-IsDecimal (uid + 1))
        (to_string-IsDecimal k) (sym (gen_uid-last uid prefix second h) ∙ same ∙ e) in
    absurd (omega (arith, to_string_injective (uid + 1) k digits))

-- Two sessions have the same id only if they had the same count, whatever their addresses and
-- times: the ids are told apart as long as the counter does not wrap.
pub gen_uid_injective :
    (m n : ℕ) (p q : Text) (s t : ℕ)
    → m + 1 < 2 ^ 64
    → n + 1 < 2 ^ 64
    → (gen_uid m p s).1 ≡ (gen_uid n q t).1
    → m ≡ n
gen_uid_injective m n p q s t hm hn same =
    let digits =
      last_part _ _ (to_string (m + 1)) (to_string (n + 1)) (to_string-IsDecimal (m + 1))
        (to_string-IsDecimal (n + 1))
        (sym (gen_uid-last m p s hm) ∙ same ∙ gen_uid-last n q t hn) in
    omega (arith, to_string_injective (m + 1) (n + 1) digits)

-- ===== src/Prelude/Keys.antt =====
-- Texts as lists of bytes: equality, the order of `std::string`, and integers as keys.
use Prim.Native.Nat.{ℕ}
use Prim.Native.Char.{code}
use Prim.Native.String.{String}
use mathlib.Core.Path.{◌≡◌, refl}
use mathlib.Core.Logic.{◌↔◌}
use mathlib.Core.Bool.{Bool, true, false, ◌&&◌, ◌||◌}
use mathlib.Core.List.{List, [], ◌∷◌}
use native.Mathlib.Omega.{arith}
use cpplib.Prelude.Tests.{ltb, ◌==◌}
use cpplib.Prelude.Int.{ℤ, pos, negsuc, ltb_ℤ}

abbrev pub Text : Type 0
Text = List ℕ

-- The code points of a literal: its bytes, if it is ASCII.
abbrev pub codes : String → Text
codes String.[] = []
codes (String.◌∷◌ c s) = code c ∷ codes s

-- What an ordered map asks of its keys.
pub record Key (K : Type 0) : Type 0 where
  pub eq : K → K → Bool
  pub less : K → K → Bool
  pub eq_iff : (a b : K) → (eq a b ≡ true) ↔ (a ≡ b)
  pub less_trans : (a b c : K) → less a b ≡ true → less b c ≡ true → less a c ≡ true
  pub less_irrefl : (a : K) → less a a ≡ false
  pub less_total : (a b : K) → eq a b ≡ false → less a b ≡ false → less b a ≡ true

unfoldable pub text_eq : Text → Text → Bool
text_eq [] [] = true
text_eq (a ∷ s) (b ∷ t) = (a == b) && text_eq s t
text_eq _ _ = false

-- Lexicographic, byte by byte.
unfoldable pub text_less : Text → Text → Bool
text_less [] [] = false
text_less [] (b ∷ t) = true
text_less (a ∷ s) [] = false
text_less (a ∷ s) (b ∷ t) = ltb a b || ((a == b) && text_less s t)

text_eq_refl : (s : Text) → text_eq s s ≡ true
unfolding text_eq
text_eq_refl [] = refl
text_eq_refl (a ∷ s) = ground (arith, text_eq_refl s)

text_eq→eq : (s t : Text) → text_eq s t ≡ true → s ≡ t
unfolding text_eq
text_eq→eq [] [] h = refl
text_eq→eq [] (b ∷ t) h = cc
text_eq→eq (a ∷ s) [] h = cc
text_eq→eq (a ∷ s) (b ∷ t) h = ground (arith, text_eq→eq s t)

pub text_eq_iff : (s t : Text) → (text_eq s t ≡ true) ↔ (s ≡ t)
text_eq_iff s t = (text_eq→eq s t, λ e. rw e (text_eq_refl t))

pub text_less_trans :
    (r s t : Text) → text_less r s ≡ true → text_less s t ≡ true → text_less r t ≡ true
unfolding text_less
text_less_trans [] [] [] h k = cc
text_less_trans [] [] (c ∷ t) h k = refl
text_less_trans [] (b ∷ s) [] h k = cc
text_less_trans [] (b ∷ s) (c ∷ t) h k = refl
text_less_trans (a ∷ r) [] t h k = cc
text_less_trans (a ∷ r) (b ∷ s) [] h k = cc
text_less_trans (a ∷ r) (b ∷ s) (c ∷ t) h k = ground (arith, text_less_trans r s t)

pub text_less_irrefl : (s : Text) → text_less s s ≡ false
unfolding text_less
text_less_irrefl [] = refl
text_less_irrefl (a ∷ s) = ground (arith, text_less_irrefl s)

pub text_less_total :
    (s t : Text) → text_eq s t ≡ false → text_less s t ≡ false → text_less t s ≡ true
unfolding text_eq text_less
text_less_total [] [] h k = cc
text_less_total [] (b ∷ t) h k = cc
text_less_total (a ∷ s) [] h k = refl
text_less_total (a ∷ s) (b ∷ t) h k = ground (arith, text_less_total s t)

abbrev pub eq_ℤ : ℤ → ℤ → Bool
eq_ℤ (pos a) (pos b) = a == b
eq_ℤ (negsuc a) (negsuc b) = a == b
eq_ℤ _ _ = false

pub eq_ℤ_iff : (a b : ℤ) → (eq_ℤ a b ≡ true) ↔ (a ≡ b)
eq_ℤ_iff (pos a) (pos b) = ground arith
eq_ℤ_iff (negsuc a) (negsuc b) = ground arith
eq_ℤ_iff (pos a) (negsuc b) = ground arith
eq_ℤ_iff (negsuc a) (pos b) = ground arith

pub less_ℤ_trans : (a b c : ℤ) → ltb_ℤ a b ≡ true → ltb_ℤ b c ≡ true → ltb_ℤ a c ≡ true
less_ℤ_trans a b c h k = ground arith

pub less_ℤ_irrefl : (a : ℤ) → ltb_ℤ a a ≡ false
less_ℤ_irrefl (pos a) = ground arith
less_ℤ_irrefl (negsuc a) = ground arith

pub less_ℤ_total : (a b : ℤ) → eq_ℤ a b ≡ false → ltb_ℤ a b ≡ false → ltb_ℤ b a ≡ true
less_ℤ_total (pos a) (pos b) h k = ground arith
less_ℤ_total (negsuc a) (negsuc b) h k = ground arith
less_ℤ_total (pos a) (negsuc b) h k = ground arith
less_ℤ_total (negsuc a) (pos b) h k = ground arith

instance abbrev pub text_key : Key Text
text_key = record {
  eq = text_eq;
  less = text_less;
  eq_iff = text_eq_iff;
  less_trans = text_less_trans;
  less_irrefl = text_less_irrefl;
  less_total = text_less_total;
}

instance abbrev pub int_key : Key ℤ
int_key = record {
  eq = eq_ℤ;
  less = ltb_ℤ;
  eq_iff = eq_ℤ_iff;
  less_trans = less_ℤ_trans;
  less_irrefl = less_ℤ_irrefl;
  less_total = less_ℤ_total;
}

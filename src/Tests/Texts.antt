-- ===== src/Tests/Texts.antt =====
-- StringUtils at concrete texts.
use cpplib.Prelude.{
  ℕ, ◌-◌, ◌<◌, ◌≤◌, ℤ, leb, leb→le, if◌then◌else◌, Bool-cases, some, inl, inr, pos, negsuc, [], ◌∷◌,
  Text, codes, length, take, ◌≡◌, refl, arith,
}
use cpplib.StringUtils.{split, trim, split_tokens, c_str}
use cpplib.StringUtils.Format.{vform, Prints, vform_prints}
use cpplib.StringUtils.Split.{join, FrontIsFree, split_joins}

split_joins_example :
    let (segments, count) = split (codes "a,b,c") b',' 2 in
    (join b',' segments ≡ codes "a,b,c")
    × (length segments ≡ count)
    × (0 < count)
    × (count ≤ 2)
    × FrontIsFree b',' segments
split_joins_example = split_joins (codes "a,b,c") b',' 2 (omega arith)

-- The last segment keeps its delimiter.
split_runs : split (codes "a,b,c") b',' 2 ≡ (codes "a" ∷ codes "b,c" ∷ [], 2)
unfolding split
split_runs = refl

trim_runs : trim (codes " a b ") ≡ codes "a b"
unfolding trim
trim_runs = refl

split_tokens_runs :
    split_tokens (codes ",a,;b;c") (codes ",;") (codes "x" ∷ []) (pos 2)
    ≡ codes "x" ∷ codes "a" ∷ codes "b" ∷ []
unfolding split_tokens
split_tokens_runs = refl

-- An older `vsnprintf`, that prints three characters.
abbrev old_printf : ℕ → ℤ × Text
old_printf size = if leb size 3 then (negsuc 0, []) else (pos 3, take (size - 1) (codes "abc"))

old_printf-Prints : Prints (codes "abc") old_printf
old_printf-Prints size = elim (Bool-cases (leb size 3)) [
  | inl small ↦ rw small (inr (leb→le size 3 small, refl))
  | inr big ↦ rw big (inl (refl, refl))
]

vform_prints_example : vform old_printf 5 ≡ some (codes "abc")
unfolding c_str
vform_prints_example = vform_prints (codes "abc") old_printf old_printf-Prints refl (omega arith)

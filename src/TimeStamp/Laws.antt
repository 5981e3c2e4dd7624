-- ===== src/TimeStamp/Laws.antt =====
-- Differences of times of src/TimeStamp.cpp, read in microseconds.
use cpplib.Prelude.{
  ℕ, ◌+◌, ◌*◌, ℤ, pos, pos_part, neg_part, ◌-ℤ◌, ◌*ℤ◌, ◌≡◌, arith, +ℤ_parts, -ℤ_parts, eq_of_parts,
}
use cpplib.TimeStamp.{TimeStamp, to_useconds, minus}

-- A product with a positive factor, by its parts.
mul_parts :
    (a : ℤ) (k : ℕ)
    → pos_part (a *ℤ pos k) + neg_part a * k ≡ neg_part (a *ℤ pos k) + pos_part a * k
unfolding ◌*ℤ◌
mul_parts a k = ground arith

-- A time in microseconds, by the parts of its fields.
pub useconds_parts :
    (t : TimeStamp)
    → pos_part (to_useconds t) + neg_part t.seconds * 1_000_000 + neg_part t.micro_seconds
      ≡ neg_part (to_useconds t) + pos_part t.seconds * 1_000_000 + pos_part t.micro_seconds
unfolding to_useconds
useconds_parts t =
    omega
      (arith, mul_parts t.seconds 1_000_000, +ℤ_parts (t.seconds *ℤ pos 1_000_000) t.micro_seconds)

-- The difference of two times spans the difference of their microseconds, although `operator-`
-- makes no borrow between its fields.
pub to_useconds-minus : (a b : TimeStamp) → to_useconds (minus a b) ≡ to_useconds a -ℤ to_useconds b
unfolding minus
to_useconds-minus a b = eq_of_parts _ _ (
    omega (
      arith,
      useconds_parts a,
      useconds_parts b,
      useconds_parts (minus a b),
      -ℤ_parts a.seconds b.seconds,
      -ℤ_parts a.micro_seconds b.micro_seconds,
      -ℤ_parts (to_useconds a) (to_useconds b),
    ))

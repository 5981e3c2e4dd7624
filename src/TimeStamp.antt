-- ===== src/TimeStamp.antt =====
-- src/TimeStamp.h and src/TimeStamp.cpp: a time as seconds and microseconds. Both are of type
-- `long`; they are integers here, since the source leaves signed overflow undefined. The clock,
-- `gettimeofday`, is an argument of the operations that read it.
pub mod Laws
pub mod Format
use cpplib.Prelude.{
  ◌-◌, ◌%◌, ◌^◌, ℕ, suc, ◌/◌, ℤ, pos, negsuc, ◌+ℤ◌, ◌-ℤ◌, ◌*ℤ◌, sub_ℕ, ltb_ℤ, Bool,
}

pub record TimeStamp : Type 0 where
  pub seconds : ℤ
  pub micro_seconds : ℤ

-- A signed number cast to an unsigned type of 32 or of 64 bits.
abbrev pub to_u32 : ℤ → ℕ
to_u32 (pos n) = n % 2 ^ 32
to_u32 (negsuc n) = 2 ^ 32 - 1 - n % 2 ^ 32

abbrev pub to_u64 : ℤ → ℕ
to_u64 (pos n) = n % 2 ^ 64
to_u64 (negsuc n) = 2 ^ 64 - 1 - n % 2 ^ 64

-- Division of a signed number, towards zero.
abbrev pub div_ℤ : ℤ → ℕ → ℤ
div_ℤ (pos n) d = pos (n / d)
div_ℤ (negsuc n) d = sub_ℕ 0 (suc n / d)

unfoldable pub to_useconds : TimeStamp → ℤ
to_useconds t = t.seconds *ℤ pos 1_000_000 +ℤ t.micro_seconds

unfoldable pub to_mseconds : TimeStamp → ℤ
to_mseconds t = t.seconds *ℤ pos 1000 +ℤ div_ℤ t.micro_seconds 1000

unfoldable pub get_mseconds : TimeStamp → ℤ
get_mseconds t = div_ℤ t.micro_seconds 1000

unfoldable pub set_seconds : TimeStamp → ℤ → TimeStamp
set_seconds t val = record t { seconds = val }

unfoldable pub set_useconds : TimeStamp → ℤ → TimeStamp
set_useconds t val = record t { micro_seconds = val }

-- `operator-`, field by field with no borrow.
unfoldable pub minus : TimeStamp → TimeStamp → TimeStamp
minus a b = record {
  seconds = a.seconds -ℤ b.seconds;
  micro_seconds = a.micro_seconds -ℤ b.micro_seconds;
}

-- `operator<` and `operator>`
unfoldable pub less : TimeStamp → TimeStamp → Bool
less a b = ltb_ℤ (to_useconds a) (to_useconds b)

unfoldable pub greater : TimeStamp → TimeStamp → Bool
greater a b = ltb_ℤ (to_useconds b) (to_useconds a)

-- ===== src/Prelude/Words.antt =====
-- Machine words: a value of an unsigned type of w bits is a number below 2 ^ w. Sums and
-- differences wrap.
use Prim.Native.Nat.{ℕ, ◌+◌, ◌-◌, ◌%◌, ◌^◌, ◌<◌, ◌≤◌}
use mathlib.Core.Path.{◌≡◌}
use native.Mathlib.Omega.{arith}

-- unsigned int
abbrev pub u32 : ℕ → ℕ
u32 n = n % 2 ^ 32

-- unsigned long, unsigned long long
abbrev pub u64 : ℕ → ℕ
u64 n = n % 2 ^ 64

-- a - b in an unsigned type of 32 bits, of two values of the type
abbrev pub sub_u32 : ℕ → ℕ → ℕ
sub_u32 a b = (a + 2 ^ 32 - b) % 2 ^ 32

-- a - b in an unsigned type of 64 bits, of two values of the type
abbrev pub sub_u64 : ℕ → ℕ → ℕ
sub_u64 a b = (a + 2 ^ 64 - b) % 2 ^ 64

-- Where the true difference is not negative, the wrapping one gives it.
pub sub_u64-le : (a b : ℕ) → a < 2 ^ 64 → b ≤ a → sub_u64 a b ≡ a - b
sub_u64-le a b ha h = omega arith

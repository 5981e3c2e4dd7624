-- ===== src/ThreadCond.antt =====
-- src/ThreadCond.cpp: the calls of a condition variable, and the time at which a wait ends. What
-- pthread and the clock return are arguments.
pub mod Deadline
use cpplib.Prelude.{
  ℕ, zero, suc, ◌+◌, ◌/◌, ◌%◌, ◌*◌, ℤ, pos, negsuc, ◌+ℤ◌, ◌-ℤ◌, eq_ℤ, ltb_ℤ, Bool, true, false, not,
  if◌then◌else◌,
}

-- `struct timespec`
pub record Timespec : Type 0 where
  pub tv_sec : ℤ
  pub tv_nsec : ℤ

abbrev neg : ℕ → ℤ
neg zero = pos 0
neg (suc n) = negsuc n

-- `/` and `%` of signed numbers by one above 0: the quotient is cut towards 0.
abbrev pub quotient : ℤ → ℕ → ℤ
quotient (pos n) d = pos (n / d)
quotient (negsuc n) d = neg (suc n / d)

abbrev pub remainder : ℤ → ℕ → ℤ
remainder (pos n) d = pos (n % d)
remainder (negsuc n) d = neg (suc n % d)

-- The times a thousand of a remainder.
abbrev thousand : ℤ → ℤ
thousand (pos n) = pos (n * 1000)
thousand (negsuc n) = neg (suc n * 1000)

-- The sums behind `clock_gettime`.
unfoldable pub add_usec : Timespec → ℤ → Timespec
add_usec ts usec = record {
  tv_sec = ts.tv_sec +ℤ quotient usec 1_000_000;
  tv_nsec = ts.tv_nsec +ℤ thousand (remainder usec 1_000_000);
}

unfoldable pub carry : Timespec → Timespec
carry ts =
    if ltb_ℤ ts.tv_nsec (pos 1_000_000_000)
    then ts
    else record { tv_sec = ts.tv_sec +ℤ pos 1; tv_nsec = ts.tv_nsec -ℤ pos 1_000_000_000 }

-- What `TimeWait` does: wait without an end, return the code of the clock, or wait to a time.
pub data Waiting : Type 0 where
  waits : Waiting
  fails : ℤ → Waiting
  until : Timespec → Waiting

-- `clock_ret` and `now` are what `clock_gettime` gives.
unfoldable pub time_wait : ℤ → ℤ → Timespec → Waiting
unfolding add_usec carry
time_wait usec clock_ret now =
    if eq_ℤ usec (pos 0)
    then waits
    else if not (eq_ℤ clock_ret (pos 0))
    then fails clock_ret
    else until (carry (add_usec now usec))

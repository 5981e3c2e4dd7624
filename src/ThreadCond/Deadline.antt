-- ===== src/ThreadCond/Deadline.antt =====
-- The time that `TimeWait` of src/ThreadCond.cpp waits to.
use cpplib.Prelude.{
  ℕ, suc, ◌≤◌, ◌==◌, ◌+◌, ◌-◌, ◌*◌, ◌/◌, ◌%◌, ◌<◌, pos, ◌+ℤ◌, ◌-ℤ◌, ltb_ℤ, false, ◌≡◌, refl, arith,
  inl, inr, Bool-cases,
}
use cpplib.ThreadCond.{Timespec, add_usec, carry, until, time_wait}

abbrev pub at : ℕ → ℕ → Timespec
at sec nsec = record { tv_sec = pos sec; tv_nsec = pos nsec }

plus_pos : (a b : ℕ) → pos a +ℤ pos b ≡ pos (a + b)
unfolding ◌+ℤ◌
plus_pos a b = ground arith

minus_pos : (a b : ℕ) → b ≤ a → pos a -ℤ pos b ≡ pos (a - b)
unfolding ◌-ℤ◌
minus_pos a b h = ground (arith, h)

-- For a wait of `usec` above 0 microseconds, from a time of the clock with less than 10 ^ 9
-- nanoseconds: the time waited to has less than 10 ^ 9 as well, as `pthread_cond_timedwait`
-- demands, and is that number of microseconds later.
pub time_wait_later :
    (usec sec nsec : ℕ)
    → nsec < 1_000_000_000
    → (sec' : ℕ) × (nsec' : ℕ) × (time_wait (pos (suc usec)) (pos 0) (at sec nsec)
        ≡ until (at sec' nsec'))
      × (nsec' < 1_000_000_000)
      × (sec' * 1_000_000_000 + nsec' ≡ sec * 1_000_000_000 + nsec + suc usec * 1000)
unfolding time_wait add_usec carry
time_wait_later usec sec nsec h =
    let usec_nsec = nsec + suc usec % 1_000_000 * 1000 in
    let usec_sec = sec + suc usec / 1_000_000 in
    let nonzero : (suc usec == 0) ≡ false = ground arith in
    elim (Bool-cases (ltb_ℤ (pos usec_nsec) (pos 1_000_000_000))) [
      | inl below ↦ (
        usec_sec,
        usec_nsec,
        rw
            (
              nonzero,
              plus_pos sec (suc usec / 1_000_000),
              plus_pos nsec (suc usec % 1_000_000 * 1000),
              below,
              time_wait,
            )
            refl,
        ground (arith, below),
        omega arith,
      )
      | inr over ↦
          let big : 1_000_000_000 ≤ usec_nsec = ground (arith, over) in
          (
            usec_sec + 1,
            usec_nsec - 1_000_000_000,
            rw
                (
                  nonzero,
                  plus_pos sec (suc usec / 1_000_000),
                  plus_pos nsec (suc usec % 1_000_000 * 1000),
                  over,
                  plus_pos usec_sec 1,
                  minus_pos usec_nsec 1_000_000_000 big,
                  time_wait,
                )
                refl,
            omega (arith, big, h),
            omega (arith, big),
          )
    ]

-- ===== src/ThreadMeet.antt =====
-- src/ThreadMeet.h and src/ThreadMeet.cpp: the meeting point of threads. Each method runs under
-- the mutex up to a wait of the condition variable, which is an action here.
pub mod Rounds
pub mod Shared
pub mod Together
use cpplib.Prelude.{ℕ, zero, suc, ◌+◌, ◌-◌, ◌*◌, ◌/◌, ◌%◌, List, [], ◌∷◌, ltb, ◌==◌, if◌then◌else◌}

pub record ThreadMeet : Type 0 where
  pub count : ℕ
  pub max_count : ℕ

-- What a thread does at the point: it goes on, wakes all others and goes on, waits until it is
-- woken, or waits until a time in seconds and nanoseconds.
pub data Action : Type 0 where
  passes : Action
  wakes_all : Action
  waits : Action
  waits_until : ℕ → ℕ → Action

-- The constructor sets its own parameter in the place of the member: `memory` is what the member
-- held before.
unfoldable pub init : ℕ → ℕ → ThreadMeet
init max_count memory = record {
  count = if max_count == 0 then 1 else max_count;
  max_count = memory;
}

-- `now` is the clock in seconds.
unfoldable pub meet : ℕ → ℕ → ThreadMeet → ThreadMeet × Action
meet timeout now m =
    if ltb 0 m.count
    then (if m.count - 1 == 0
        then (record m { count = m.count - 1 }, wakes_all)
        else if ltb 0 timeout
        then (
          record m { count = m.count - 1 },
          waits_until (now + timeout / 1_000_000) (timeout % 1_000_000 * 1000),
        )
        else (record m { count = m.count - 1 }, waits))
    else (m, passes)

unfoldable pub reset : ThreadMeet → ThreadMeet
reset m = record m { count = m.max_count }

-- `SetMaxcount` assigns its parameter to itself.
unfoldable pub set_max_count : ℕ → ThreadMeet → ThreadMeet
set_max_count max_count m = m

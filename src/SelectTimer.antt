-- ===== src/SelectTimer.antt =====
-- src/SelectTimer.h and src/SelectTimer.cpp: the timer's handler and interval, and one round of
-- its thread. A handler is known by a number; what `select` returned is an argument.
pub mod Interval
pub mod Start
use cpplib.Prelude.{
  ℕ, ◌+◌, ◌*◌, ◌/◌, ◌%◌, ℤ, pos, negsuc, Bool, true, false, Option, none, some, ◌==◌, if◌then◌else◌,
}

pub record SelectTimer : Type 0 where
  pub handler : Option ℕ
  pub sec : ℕ
  pub usec : ℕ

-- The constructor sets the handler alone.
unfoldable pub init : ℕ → ℕ → SelectTimer
init sec usec = record { handler = none; sec = sec; usec = usec }

-- `none` as the handler is NULL.
unfoldable pub register_timer_handler : Option ℕ → ℕ → SelectTimer → ℤ × SelectTimer
register_timer_handler none interval timer = (negsuc 0, timer)
register_timer_handler (some h) interval timer = elim timer.handler [
  | some _ ↦ (negsuc 1, timer)
  | none ↦ if interval == 0 then (negsuc 2, timer) else (
    pos 0,
    record { handler = some h; sec = interval / 1_000_000; usec = interval % 1_000_000 },
  )
]

unfoldable pub set_interval : ℕ → SelectTimer → ℤ × SelectTimer
set_interval interval timer =
    if interval == 0
    then (negsuc 2, timer)
    else (pos 0, record timer { sec = interval / 1_000_000; usec = interval % 1_000_000 })

unfoldable pub get_interval : SelectTimer → ℕ
get_interval timer = 1_000_000 * timer.sec + timer.usec

-- What `select` returned: descriptors, the end of the time, or an errno.
pub data Selected : Type 0 where
  ready : Selected
  expired : Selected
  failed : ℕ → Selected

-- The result of `svc`, and the handler that it calls; 4 is `EINTR` and 22 `EINVAL`. A call with
-- no handler is none of a defined behaviour.
unfoldable pub svc : Selected → SelectTimer → Option (ℤ × Option ℕ)
svc ready timer = some (pos 0, none)
svc expired timer = elim timer.handler [ none ↦ none | some h ↦ some (pos 0, some h) ]
svc (failed errno) timer =
    some (if errno == 4 then pos 0 else if errno == 22 then negsuc 0 else negsuc 1, none)

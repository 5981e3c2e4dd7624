-- ===== src/Tests/Meetings.antt =====
-- Two threads that meet at a ThreadMeet for two, an access at a time.
use cpplib.Prelude.{update, ℕ, ℤ, none, some, [], ◌∷◌, All, length, ◌+◌, ◌<◌, ◌≡◌, ◌≢◌, refl}
use cpplib.ThreadMeet
use cpplib.ThreadMeet.{ThreadMeet}
use cpplib.ThreadMeet.Shared.{
  Pc, meeting, telling, woken, leaving, access, IsMeet, Meeting, NoEnds, Waited,
}
use cpplib.ThreadMeet.Together.{meet_together}
use cpplib.ThreadMutex.{
  waits, returns, Place, outside, locking, inside, blocked, wake, Turns, calls, locks, accesses,
  Reach, start, later, unheard, all,
}

abbrev point : ℕ → ThreadMeet
point left = record { count = left; max_count = 0 }

abbrev Run : Meeting → Type 0
Run = Reach access IsMeet (ThreadMeet.init 2 0)

abbrev place1 : ℕ → Place Pc
place1 = update (λ i. outside) 0 (locking meeting)

run1 : Run (record { mutex = none; object = ThreadMeet.init 2 0; place = place1; log = [] })
run1 = later start (calls 0 meeting refl tt)

abbrev place2 : ℕ → Place Pc
place2 = update place1 0 (inside meeting meeting)

run2 : Run (record { mutex = some 0; object = ThreadMeet.init 2 0; place = place2; log = [] })
run2 = later run1 (locks 0 refl refl)

-- Thread 0 waits.
abbrev place3 : ℕ → Place Pc
place3 = update place2 0 (blocked (λ code. woken))

abbrev waited_once : Turns Pc (Unit {0})
waited_once = (0, meeting, waits (λ code. woken)) ∷ []

run3 : Run (record { mutex = none; object = point 1; place = place3; log = waited_once })
unfolding access ThreadMeet.init ThreadMeet.meet
run3 = later run2 (accesses 0 refl unheard)

abbrev place4 : ℕ → Place Pc
place4 = update place3 1 (locking meeting)

run4 : Run (record { mutex = none; object = point 1; place = place4; log = waited_once })
run4 = later run3 (calls 1 meeting refl tt)

abbrev place5 : ℕ → Place Pc
place5 = update place4 1 (inside meeting meeting)

run5 : Run (record { mutex = some 1; object = point 1; place = place5; log = waited_once })
run5 = later run4 (locks 1 refl refl)

-- Thread 1 is the last one.
abbrev place6 : ℕ → Place Pc
place6 = update place5 1 (inside meeting telling)

run6 : Run (record { mutex = some 1; object = point 0; place = place6; log = waited_once })
unfolding access ThreadMeet.meet
run6 = later run5 (accesses 1 refl unheard)

abbrev place7 : ℕ → Place Pc
place7 = update (λ j. wake (place6 j)) 1 (inside meeting leaving)

run7 : Run (record { mutex = some 1; object = point 0; place = place7; log = waited_once })
unfolding access
run7 = later run6 (accesses 1 refl all)

abbrev state8 : Meeting
state8 = record {
  mutex = none;
  object = point 0;
  place = update place7 1 outside;
  log = (1, meeting, returns tt) ∷ waited_once;
}

run8 : Run state8
unfolding access
run8 = later run7 (accesses 1 refl unheard)

meet_together_example :
    (NoEnds run8
      → 0 < state8.object.count
      → (state8.object.count + length state8.log ≡ 2) × All Waited state8.log)
    × (state8.object.count ≡ 0
        → state8.mutex ≡ none
        → (j : ℕ) (k : ℤ → Pc) → state8.place j ≢ blocked k)
meet_together_example = meet_together 1 0 state8 run8

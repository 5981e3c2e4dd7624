-- ===== src/Tests/Monitors.antt =====
-- Threads on one TMapString, an access at a time.
use cpplib.Prelude.{
  update, ℕ, ℤ, pos, Option, none, some, [], ◌∷◌, Text, codes, text_key, ◌≡◌, refl,
}
use cpplib.OrderedMap
use cpplib.ThreadMutex.{
  waits, returns, System, Place, outside, locking, inside, blocked, wake, Turns, calls, locks,
  accesses, Reach, start, later, unheard, all,
}
use cpplib.ThreadMutex.Serial.{IsReplay}
use cpplib.TMapString.{Items}
use cpplib.TMapString.Shared.{
  Pc, popping, waited, pushing, telling, leaving, access, IsMethod, turn, calls_serial,
}

abbrev Shared : Type 0
Shared = System (Items ℕ) (Pc ℕ) (Option (ℤ × Option ℕ))

abbrev key : Text
key = codes "k"

abbrev nowhere : ℕ → Place (Pc ℕ)
nowhere i = outside

abbrev waited_once : Turns (Pc ℕ) (Option (ℤ × Option ℕ))
waited_once = (0, popping key, waits (waited key)) ∷ []

-- Thread 0 comes to an empty map and waits; thread 1 pushes, and wakes it.
abbrev place1 : ℕ → Place (Pc ℕ)
place1 = update nowhere 0 (locking (popping key))

abbrev state1 : Shared
state1 = record { mutex = none; object = []; place = place1; log = [] }

run1 : Reach access IsMethod [] state1
run1 = later start (calls 0 (popping key) refl tt)

abbrev place2 : ℕ → Place (Pc ℕ)
place2 = update place1 0 (inside (popping key) (popping key))

abbrev state2 : Shared
state2 = record { mutex = some 0; object = []; place = place2; log = [] }

run2 : Reach access IsMethod [] state2
run2 = later run1 (locks 0 refl refl)

abbrev place3 : ℕ → Place (Pc ℕ)
place3 = update place2 0 (blocked (waited key))

abbrev state3 : Shared
state3 = record { mutex = none; object = []; place = place3; log = waited_once }

run3 : Reach access IsMethod [] state3
unfolding access OrderedMap.insert OrderedMap.place OrderedMap.find
run3 = later run2 (accesses 0 refl unheard)

abbrev place4 : ℕ → Place (Pc ℕ)
place4 = update place3 1 (locking (pushing key 9))

abbrev state4 : Shared
state4 = record { mutex = none; object = []; place = place4; log = waited_once }

run4 : Reach access IsMethod [] state4
run4 = later run3 (calls 1 (pushing key 9) refl tt)

abbrev place5 : ℕ → Place (Pc ℕ)
place5 = update place4 1 (inside (pushing key 9) (pushing key 9))

abbrev state5 : Shared
state5 = record { mutex = some 1; object = []; place = place5; log = waited_once }

run5 : Reach access IsMethod [] state5
run5 = later run4 (locks 1 refl refl)

abbrev place6 : ℕ → Place (Pc ℕ)
place6 = update place5 1 (inside (pushing key 9) telling)

abbrev state6 : Shared
state6 = record { mutex = some 1; object = (key, 9) ∷ []; place = place6; log = waited_once }

run6 : Reach access IsMethod [] state6
unfolding access OrderedMap.insert OrderedMap.place OrderedMap.find
run6 = later run5 (accesses 1 refl unheard)

abbrev place7 : ℕ → Place (Pc ℕ)
place7 = update (λ j. wake (place6 j)) 1 (inside (pushing key 9) (leaving (pos 0) none))

abbrev state7 : Shared
state7 = record { mutex = some 1; object = (key, 9) ∷ []; place = place7; log = waited_once }

run7 : Reach access IsMethod [] state7
unfolding access OrderedMap.insert OrderedMap.place OrderedMap.find
run7 = later run6 (accesses 1 refl all)

abbrev place8 : ℕ → Place (Pc ℕ)
place8 = update place7 1 outside

abbrev state8 : Shared
state8 = record {
  mutex = none;
  object = (key, 9) ∷ [];
  place = place8;
  log = (1, pushing key 9, returns (some (pos 0, none))) ∷ waited_once;
}

run8 : Reach access IsMethod [] state8
unfolding access OrderedMap.insert OrderedMap.place OrderedMap.find
run8 = later run7 (accesses 1 refl unheard)

calls_serial_example :
    (state8.place 0 ≡ inside (popping key) (popping key)
      → state8.place 1 ≡ inside (popping key) (popping key)
      → ◌≡◌ {A = ℕ} 0 1)
    × (state8.mutex ≡ none → IsReplay turn [] state8.log state8.object)
calls_serial_example =
    calls_serial [] state8 0 1 (popping key) (popping key) (popping key) (popping key) run8

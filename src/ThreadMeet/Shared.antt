-- ===== src/ThreadMeet/Shared.antt =====
-- `Meet` of src/ThreadMeet.cpp with no time limit by its accesses, which threads interleave under
-- its mutex.
use cpplib.Prelude.{ℕ, ◌≡◌, refl}
use cpplib.ThreadMeet.{ThreadMeet, Action, meet}
use cpplib.ThreadMutex.{
  Access, quiet, broadcast, Next, goes_on, waits, returns, System, Step, calls, locks, accesses,
  ends, Reach, start, later,
}
use cpplib.ThreadMutex.Serial.{rest_of}

-- The next access of a thread in `Meet`: its test of the count, the broadcast, and behind it or a
-- wait.
pub data Pc : Type 0 where
  meeting : Pc
  telling : Pc
  woken : Pc
  leaving : Pc

abbrev pub IsMeet : Pc → Type 0
IsMeet meeting = Unit
IsMeet telling = ⊥
IsMeet woken = ⊥
IsMeet leaving = ⊥

abbrev pub next_of : Action → Next Pc (Unit {0})
next_of Action.passes = goes_on leaving
next_of Action.wakes_all = goes_on telling
next_of Action.waits = waits (λ code. woken)
next_of (Action.waits_until sec nsec) = waits (λ code. woken)

unfoldable pub access : Pc → ThreadMeet → Access ThreadMeet Pc (Unit {0})
access meeting m =
    let (counted, action) = meet 0 0 m in
    record { object = counted; signal = quiet; next = next_of action }
access telling m = record { object = m; signal = broadcast; next = goes_on leaving }
access woken m = record { object = m; signal = quiet; next = goes_on leaving }
access leaving m = record { object = m; signal = quiet; next = returns tt }

abbrev end_of : Action → Next Pc (Unit {0})
end_of Action.passes = returns tt
end_of Action.wakes_all = returns tt
end_of Action.waits = waits (λ code. woken)
end_of (Action.waits_until sec nsec) = waits (λ code. woken)

pub turn : Pc → ThreadMeet → ThreadMeet × Next Pc (Unit {0})
turn meeting m = let (counted, action) = meet 0 0 m in (counted, end_of action)
turn telling m = (m, returns tt)
turn woken m = (m, returns tt)
turn leaving m = (m, returns tt)

end-next :
    (a : Action) (m : ThreadMeet)
    → ◌≡◌ {A = ThreadMeet × Next Pc (Unit {0})} (m, end_of a) (rest_of turn m (next_of a))
unfolding turn
end-next Action.passes m = refl
end-next Action.wakes_all m = refl
end-next Action.waits m = refl
end-next (Action.waits_until sec nsec) m = refl

pub unrolls :
    (p : Pc) (m : ThreadMeet) → turn p m ≡ rest_of turn (access p m).object (access p m).next
unfolding turn access
unrolls meeting m = end-next (meet 0 0 m).1 (meet 0 0 m).0
unrolls telling m = refl
unrolls woken m = refl
unrolls leaving m = refl

abbrev pub Meeting : Type 0
Meeting = System ThreadMeet Pc (Unit {0})

-- No wait ends but by a broadcast.
abbrev pub NoEnd : {s t : Meeting} → Step access IsMeet s t → Type 0
NoEnd (calls i p at m) = Unit
NoEnd (locks i at m) = Unit
NoEnd (accesses i at w) = Unit
NoEnd (ends i code at) = ⊥

abbrev pub NoEnds : {m : ThreadMeet} {s : Meeting} → Reach access IsMeet m s → Type 0
NoEnds start = Unit
NoEnds (later r step) = NoEnds r × NoEnd step

-- The turn ended in a wait.
abbrev pub Waited : ℕ × Pc × Next Pc (Unit {0}) → Type 0
Waited (i, p, goes_on q) = ⊥
Waited (i, p, waits k) = Unit
Waited (i, p, returns r) = ⊥

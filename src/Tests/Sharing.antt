-- ===== src/Tests/Sharing.antt =====
-- Two threads on one TQueue, an access at a time.
use cpplib.Prelude.{update, ℕ, pos, Option, none, some, List, [], ◌∷◌, ◌++◌, ◌≡◌, refl}
use cpplib.TimeStamp.{TimeStamp}
use cpplib.Queue
use cpplib.Queue.{TQueue}
use cpplib.Queue.Shared.{
  Pc, popping, reading, dropping, pacing, pushing, adding, telling, leaving, Reply, access,
  IsMethod,
}
use cpplib.Queue.Shared.Fifo.{accepted, delivered, calls_fifo}
use cpplib.Queue.Shared.Served.{waits_on_empty}
use cpplib.ThreadMutex.{
  waits, returns, Place, outside, locking, inside, blocked, wake, Turns, calls, locks, accesses,
  Reach, start, later, unheard, all,
}

abbrev time : TimeStamp
time = record { seconds = pos 5; micro_seconds = pos 0 }

abbrev queue : List ℕ → TQueue ℕ
queue items = record {
  lst_item = items;
  max_size = 3;
  wake_up_ts = time;
  rate_limit = 0;
  try_pop_cnt = 0;
}

abbrev Run : Option ℕ → List ℕ → (ℕ → Place (Pc ℕ)) → Turns (Pc ℕ) (Reply ℕ) → Type 0
Run mutex items place log =
    Reach access IsMethod (queue [])
      (record { mutex = mutex; object = queue items; place = place; log = log })

-- Thread 0 comes to the empty queue and waits.
abbrev waited_log : Turns (Pc ℕ) (Reply ℕ)
waited_log = (0, popping time time, waits (λ code. popping time time)) ∷ []

abbrev pushed_log : Turns (Pc ℕ) (Reply ℕ)
pushed_log = (1, pushing 9, returns (some (pos 0, none))) ∷ waited_log

abbrev popped_log : Turns (Pc ℕ) (Reply ℕ)
popped_log = (0, popping time time, returns (some (pos 0, some 9))) ∷ pushed_log

abbrev place0 : ℕ → Place (Pc ℕ)
place0 i = outside

abbrev place1 : ℕ → Place (Pc ℕ)
place1 = update place0 0 (locking (popping time time))

run1 : Run none [] place1 []
run1 = later start (calls 0 (popping time time) refl tt)

abbrev place2 : ℕ → Place (Pc ℕ)
place2 = update place1 0 (inside (popping time time) (popping time time))

run2 : Run (some 0) [] place2 []
run2 = later run1 (locks 0 refl refl)

abbrev place3 : ℕ → Place (Pc ℕ)
place3 = update place2 0 (blocked (λ code. popping time time))

run3 : Run none [] place3 waited_log
unfolding access Queue.empty Queue.full Queue.throttle
run3 = later run2 (accesses 0 refl unheard)

-- Thread 1 pushes, and wakes it.
abbrev place4 : ℕ → Place (Pc ℕ)
place4 = update place3 1 (locking (pushing 9))

run4 : Run none [] place4 waited_log
run4 = later run3 (calls 1 (pushing 9) refl tt)

abbrev place5 : ℕ → Place (Pc ℕ)
place5 = update place4 1 (inside (pushing 9) (pushing 9))

run5 : Run (some 1) [] place5 waited_log
run5 = later run4 (locks 1 refl refl)

abbrev place6 : ℕ → Place (Pc ℕ)
place6 = update place5 1 (inside (pushing 9) (adding 9))

run6 : Run (some 1) [] place6 waited_log
unfolding access Queue.empty Queue.full Queue.throttle
run6 = later run5 (accesses 1 refl unheard)

abbrev place7 : ℕ → Place (Pc ℕ)
place7 = update place6 1 (inside (pushing 9) telling)

run7 : Run (some 1) (9 ∷ []) place7 waited_log
unfolding access Queue.empty Queue.full Queue.throttle
run7 = later run6 (accesses 1 refl unheard)

abbrev place8 : ℕ → Place (Pc ℕ)
place8 = update (λ j. wake (place7 j)) 1 (inside (pushing 9) (leaving (pos 0) none))

run8 : Run (some 1) (9 ∷ []) place8 waited_log
unfolding access Queue.empty Queue.full Queue.throttle
run8 = later run7 (accesses 1 refl all)

abbrev place9 : ℕ → Place (Pc ℕ)
place9 = update place8 1 outside

run9 : Run none (9 ∷ []) place9 pushed_log
unfolding access Queue.empty Queue.full Queue.throttle
run9 = later run8 (accesses 1 refl unheard)

-- Thread 0 takes the item.
abbrev place10 : ℕ → Place (Pc ℕ)
place10 = update place9 0 (inside (popping time time) (popping time time))

run10 : Run (some 0) (9 ∷ []) place10 pushed_log
run10 = later run9 (locks 0 refl refl)

abbrev place11 : ℕ → Place (Pc ℕ)
place11 = update place10 0 (inside (popping time time) (reading time time))

run11 : Run (some 0) (9 ∷ []) place11 pushed_log
unfolding access Queue.empty Queue.full Queue.throttle
run11 = later run10 (accesses 0 refl unheard)

abbrev place12 : ℕ → Place (Pc ℕ)
place12 = update place11 0 (inside (popping time time) (dropping time time 9))

run12 : Run (some 0) (9 ∷ []) place12 pushed_log
unfolding access Queue.empty Queue.full Queue.throttle
run12 = later run11 (accesses 0 refl unheard)

abbrev place13 : ℕ → Place (Pc ℕ)
place13 = update place12 0 (inside (popping time time) (pacing time time 9))

run13 : Run (some 0) [] place13 pushed_log
unfolding access Queue.empty Queue.full Queue.throttle
run13 = later run12 (accesses 0 refl unheard)

abbrev place14 : ℕ → Place (Pc ℕ)
place14 = update place13 0 (inside (popping time time) (leaving (pos 0) (some 9)))

run14 : Run (some 0) [] place14 pushed_log
unfolding access Queue.empty Queue.full Queue.throttle
run14 = later run13 (accesses 0 refl unheard)

abbrev place15 : ℕ → Place (Pc ℕ)
place15 = update place14 0 outside

run15 : Run none [] place15 popped_log
unfolding access Queue.empty Queue.full Queue.throttle
run15 = later run14 (accesses 0 refl unheard)

calls_fifo_example : [] ++ accepted popped_log ≡ delivered popped_log ++ []
calls_fifo_example =
    calls_fifo (queue [])
      (record { mutex = none; object = queue []; place = place15; log = popped_log }) run15 refl

waits_on_empty_example : ◌≡◌ {A = List ℕ} (queue []).lst_item []
waits_on_empty_example =
    waits_on_empty (queue [])
      (record { mutex = none; object = queue []; place = place3; log = waited_log }) 0
      (λ code. popping time time) run3 refl refl

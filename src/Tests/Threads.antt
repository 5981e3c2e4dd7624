-- ===== src/Tests/Threads.antt =====
-- Thread at concrete values: a thread that ends before `run` writes the status, and one that is
-- stopped.
use cpplib.Prelude.{
  total, update, ℕ, ◌+◌, ◌*◌, ◌≤◌, ◌≡◌, ◌⊎◌, pos, true, false, List, [], ◌∷◌, arith, refl,
}
use cpplib.Thread
use cpplib.Thread.{Thread, StStatus, st_init, st_run, st_exit, thr_count}
use cpplib.Thread.Lifecycle.{
  Proc, absent, preparing, serving, testing, cleaning, exiting, ended, prepares, serves, fails,
  is_stopped, cleans, exits, Caller, idle, creating, keeping, marking, detaching, System, inits,
  runs, creates, keeps, marks, detaches, leaves, calls, moves, Reach, start, later,
}
use cpplib.Thread.Lifecycle.Stopping.{Moves, none_yet, then_moves, CanMove, stop_ends}
use cpplib.Thread.Lifecycle.Status.{unkept, created, HasEnded, object_tells}

abbrev object : StStatus → List ℕ → Thread
object status threads = record {
  thr_cnt = 1;
  status = status;
  stop = false;
  detach = true;
  threads = threads;
}

abbrev Run : StStatus → List ℕ → Caller → (ℕ → Proc) → Type 0
Run status threads caller proc =
    Reach 1 (record { object = object status threads; caller = caller; proc = proc })

abbrev proc0 : ℕ → Proc
proc0 i = absent

run1 : Run st_init [] idle proc0
unfolding Thread.make Thread.init
run1 = later start (calls (inits 1 true (pos 0) (pos 0) (pos 0) refl))

run2 : Run st_init [] (creating 1) proc0
unfolding Thread.make Thread.init
run2 = later run1 (calls (runs refl refl))

abbrev proc1 : ℕ → Proc
proc1 = update proc0 0 preparing

run3 : Run st_init [] (keeping 0 0) proc1
run3 = later run2 (calls (creates 0 0 refl (omega arith) refl))

run4 : Run st_init (0 ∷ []) (marking 0 0) proc1
run4 = later run3 (calls (keeps 0 0 refl))

abbrev proc2 : ℕ → Proc
proc2 = update proc1 0 serving

run5 : Run st_init (0 ∷ []) (marking 0 0) proc2
run5 = later run4 (moves 0 (omega arith) prepares)

abbrev proc3 : ℕ → Proc
proc3 = update proc2 0 cleaning

run6 : Run st_init (0 ∷ []) (marking 0 0) proc3
run6 = later run5 (moves 0 (omega arith) fails)

abbrev proc4 : ℕ → Proc
proc4 = update proc3 0 exiting

run7 : Run st_init (0 ∷ []) (marking 0 0) proc4
run7 = later run6 (moves 0 (omega arith) cleans)

abbrev proc5 : ℕ → Proc
proc5 = update proc4 0 ended

run8 : Run st_exit (0 ∷ []) (marking 0 0) proc5
run8 = later run7 (moves 0 (omega arith) exits)

run9 : Run st_run (0 ∷ []) (detaching 0 0) proc5
run9 = later run8 (calls (marks 0 0 refl))

run10 : Run st_run (0 ∷ []) (creating 0) proc5
run10 = later run9 (calls (detaches 0 0 refl))

run11 : Run st_run (0 ∷ []) idle proc5
run11 = later run10 (calls (leaves refl))

-- The status tells of a thread that runs, where none is left.
abbrev late : System
late = record { object = object st_run (0 ∷ []); caller = idle; proc = proc5 }

object_tells_example :
    (thr_count late.object + unkept late.caller ≡ total created 1 late.proc)
    × (late.object.status ≡ st_exit → HasEnded 1 late)
object_tells_example = object_tells 1 late run11

abbrev halted : StStatus → Thread
halted status = record {
  thr_cnt = 1;
  status = status;
  stop = true;
  detach = true;
  threads = 0 ∷ [];
}

abbrev ahead : System
ahead = record { object = halted st_run; caller = idle; proc = proc1 }

abbrev behind : System
behind = record {
  object = halted st_exit;
  caller = idle;
  proc =
      update (update (update (update (update proc1 0 serving) 0 testing) 0 cleaning) 0 exiting) 0
        ended;
}

stopping : Moves 1 ahead 5 1 behind
stopping =
    then_moves 0
      (then_moves 0
        (then_moves 0
          (then_moves 0 (then_moves 0 (none_yet) (omega arith) prepares) (omega arith) serves)
          (omega arith) (is_stopped refl))
        (omega arith) cleans)
      (omega arith) exits

stop_ends_example :
    (5 ≤ 1 * 5)
    × (1 ≤ 1)
    × ((i : ℕ)
        → ((behind.proc i ≡ absent) ⊎ (behind.proc i ≡ ended))
          ⊎ CanMove behind.object (behind.proc i))
stop_ends_example = stop_ends 1 ahead 5 1 behind refl stopping

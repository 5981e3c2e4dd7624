-- ===== src/SelectTimer/Start.antt =====
-- The start of a timer of src/SelectTimer.cpp, whose class is derived from that of src/Thread.h.
use cpplib.Prelude.{ℕ, ℤ, pos, eq_ℤ, true, not, [], ◌∷◌, if◌then◌else◌}
use cpplib.Thread
use cpplib.Thread.{Thread, Creation, created, refused}
use cpplib.SelectTimer
use cpplib.SelectTimer.{SelectTimer}

pub record TimerThread : Type 0 where
  pub timer : SelectTimer
  pub thread : Thread

-- What pthread gives: the result of `pthread_attr_init`, and a creation.
pub record Launch : Type 0 where
  pub attr : ℤ
  pub creation : Creation

-- The constructor leaves `_sec` and `_usec` as they are.
unfoldable pub constructed : ℕ → ℕ → TimerThread
unfolding SelectTimer.init Thread.make
constructed sec usec = record { timer = SelectTimer.init sec usec; thread = Thread.make }

-- `init` with its default arguments, and the `do_init` of the class Thread, which returns 0.
unfoldable pub init : Launch → TimerThread → ℤ × TimerThread
unfolding Thread.init
init l t =
    let (ret, thread) = Thread.init 1 true l.attr (pos 0) (pos 0) t.thread in
    (ret, record t { thread = thread })

unfoldable pub run : Launch → TimerThread → ℤ × TimerThread
unfolding Thread.run
run l t =
    let r = Thread.run (l.creation ∷ []) (pos 0) t.thread in (r.ret, record t { thread = r.object })

unfoldable pub start : Launch → TimerThread → ℤ × TimerThread
unfolding init run
start l t = let ready = init l t in if not (eq_ℤ ready.0 (pos 0)) then ready else run l ready.1

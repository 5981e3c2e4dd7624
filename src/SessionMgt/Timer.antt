-- ===== src/SessionMgt/Timer.antt =====
-- The timer of src/SessionMgt/SessionMgt.cpp: its start, and its thread, among whose waits other
-- threads call the manager. Each method runs under the manager's mutex.
pub mod Watch
use cpplib.Prelude.{
  ℕ, ℤ, pos, negsuc, eq_ℤ, Bool, not, Option, none, some, List, [], ◌∷◌, if◌then◌else◌,
}
use cpplib.TimeStamp.{TimeStamp}
use cpplib.SelectTimer.{SelectTimer, Selected, register_timer_handler, svc}
use cpplib.SelectTimer.Start
use cpplib.SelectTimer.Start.{TimerThread, Launch}
use cpplib.Thread.{Ended, serves, cleaned}
use cpplib.SessionMgt.{SessionMgt, tcp_idle_timeout, check}
use cpplib.SessionMgt.Calls
use cpplib.SessionMgt.Calls.{Call}

-- `InitSessionTimer` on a new timer; the handler is number 0.
unfoldable pub init_session_timer : Launch → TimerThread → ℤ × TimerThread
unfolding register_timer_handler Start.init Start.run
init_session_timer l t =
    let (ret, timer) = register_timer_handler (some 0) tcp_idle_timeout t.timer in
    let registered = record t { timer = timer } in
    let ready = Start.init l registered in
    let running = Start.run l ready.1 in
    if not (eq_ℤ ret (pos 0))
    then (negsuc 0, registered)
    else if not (eq_ℤ ready.0 (pos 0))
    then (negsuc 0, ready.1)
    else if not (eq_ℤ running.0 (pos 0))
    then (negsuc 0, running.1)
    else (pos 0, running.1)

-- A round of the thread: the calls of other threads while it waits, what `select` returns, the
-- clock, and whether the timer is stopped behind it.
pub record Round : Type 0 where
  pub between : List Call
  pub selected : Selected
  pub clock : TimeStamp
  pub stopped : Bool

-- `svc` with the `handle_timeout` of `SessionTimerHandler`, which checks the instance of
-- `TSingleton`, whichever manager started the timer: `mgt` is that instance.
unfoldable pub svc_session : SelectTimer → Round → SessionMgt → Option (ℤ × SessionMgt)
unfolding svc check Calls.run
svc_session timer r mgt =
    let found = Calls.run mgt r.between in
    elim (svc r.selected timer) [
      | none ↦ none
      | some (ret, fired) ↦ some (ret, elim fired [ none ↦ found | some h ↦ check r.clock found ])
    ]

-- The loop of `thread_proc`.
unfoldable pub timer_loop : SelectTimer → List Round → SessionMgt → Option (Ended × SessionMgt)
timer_loop timer [] mgt = some (serves, mgt)
timer_loop timer (r ∷ rounds) mgt = elim (svc_session timer r mgt) [
  | none ↦ none
  | some (ret, after) ↦
      let rest = timer_loop timer rounds after in
      if not (eq_ℤ ret (pos 0))
      then some (cleaned, after)
      else if r.stopped
      then some (cleaned, after)
      else rest
]

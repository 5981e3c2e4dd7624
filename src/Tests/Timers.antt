-- ===== src/Tests/Timers.antt =====
-- The timer of SessionMgt at a concrete start and a few rounds.
use cpplib.Prelude.{ℕ, pos, negsuc, false, true, some, List, [], ◌∷◌, ◌++◌, codes, ◌≡◌, refl, arith}
use cpplib.TimeStamp.{TimeStamp}
use cpplib.SelectTimer.{expired, failed, get_interval}
use cpplib.SelectTimer.Start.{Launch, constructed, start, init, run}
use cpplib.Thread
use cpplib.Thread.{created, refused, Ended}
use cpplib.SessionMgt
use cpplib.SessionMgt.{tcp_idle_timeout}
use cpplib.SessionMgt.Invariant.{IsConsistent}
use cpplib.SessionMgt.Calls
use cpplib.SessionMgt.Calls.{Call, inserts, removes, checks}
use cpplib.SessionMgt.Timer.{init_session_timer, Round, timer_loop}
use cpplib.SessionMgt.Timer.Watch.{calls_of, session_timer_checks}

abbrev at : ℕ → TimeStamp
at s = record { seconds = pos s; micro_seconds = pos 0 }

-- The thread is created, and cannot be detached.
abbrev attached : Launch
attached = record { attr = pos 0; creation = created 7 (pos 22) }

abbrev opening : List Call
opening = inserts (pos 5) (codes "10.0.0.1") 80 (at 2000) ∷ []

-- A wait that runs its time, one that is interrupted, and one behind which the timer is stopped.
abbrev rounds : List Round
rounds =
    record {
      between = inserts (pos 6) (codes "10.0.0.1") 81 (at 2050) ∷ [];
      selected = expired;
      clock = at 2061;
      stopped = false;
    }
    ∷ record { between = []; selected = failed 4; clock = at 2070; stopped = false }
    ∷ record { between = removes (pos 6) ∷ []; selected = expired; clock = at 2121; stopped = true }
    ∷ record { between = []; selected = expired; clock = at 2181; stopped = false }
    ∷ []

-- The round behind the stop makes no calls.
rounds_call :
    calls_of rounds
    ≡ inserts (pos 6) (codes "10.0.0.1") 81 (at 2050)
      ∷ checks (at 2061)
      ∷ removes (pos 6)
      ∷ checks (at 2121)
      ∷ []
rounds_call = refl

session_timer_checks_example :
    let (code, t) = init_session_timer attached (constructed 0 0) in
    let mgt = Calls.run SessionMgt.init (opening ++ calls_of rounds) in
    (code ≡ negsuc 0)
    × (t.thread.threads ≡ 7 ∷ [])
    × (get_interval t.timer ≡ tcp_idle_timeout)
    × ((ended : Ended) × (timer_loop t.timer rounds (Calls.run SessionMgt.init opening)
          ≡ some (ended, mgt)))
    × IsConsistent mgt
session_timer_checks_example = session_timer_checks 0 0 attached opening rounds (omega arith)

-- A timer that is started and no handler's; a second start makes a second thread.
start_twice : (start attached (start attached (constructed 0 0)).1).1.thread.threads ≡ 7 ∷ 7 ∷ []
unfolding start init run constructed Thread.init Thread.run Thread.make
start_twice = refl

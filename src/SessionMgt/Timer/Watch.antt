-- ===== src/SessionMgt/Timer/Watch.antt =====
-- What the timer of src/SessionMgt/SessionMgt.cpp does to the sessions.
use cpplib.Prelude.{
  ℕ, ℤ, pos, negsuc, eq_ℤ, Bool, false, not, ◌&&◌, ◌||◌, ◌==◌, some, List, [], ◌∷◌, ◌++◌,
  append-nil, length, ◌<◌, ◌^◌, if◌then◌else◌, ◌≡◌, refl, arith, inl, inr, Bool-cases,
}
use cpplib.TimeStamp.{TimeStamp}
use cpplib.SelectTimer.{
  SelectTimer, Selected, ready, expired, failed, get_interval, register_timer_handler, svc,
}
use cpplib.SelectTimer.Start.{Launch, constructed, init, run}
use cpplib.Thread
use cpplib.Thread.{Thread, Creation, created, refused, Ended, serves, cleaned}
use cpplib.Thread.Runs.{started}
use cpplib.SessionMgt
use cpplib.SessionMgt.{SessionMgt, tcp_idle_timeout, check}
use cpplib.SessionMgt.Invariant.{IsConsistent}
use cpplib.SessionMgt.Calls
use cpplib.SessionMgt.Calls.{Call, checks, step, run-IsConsistent}
use cpplib.SessionMgt.Timer.{init_session_timer, Round, svc_session, timer_loop}

-- pthread gives the attributes and a thread, and detaches it.
abbrev pub is_launched : Launch → Bool
is_launched l = eq_ℤ l.attr (pos 0) && elim l.creation [
  | created thread code ↦ eq_ℤ code (pos 0)
  | refused code ↦ eq_ℤ code (pos 0)
]

-- `select` has failed for another reason than a signal.
abbrev pub is_broken : Selected → Bool
is_broken ready = false
is_broken expired = false
is_broken (failed errno) = not (errno == 4)

abbrev pub call_of : Round → List Call
call_of r = elim r.selected [ ready ↦ [] | expired ↦ checks r.clock ∷ [] | failed errno ↦ [] ]

-- The rounds up to the end of the thread.
abbrev pub calls_of : List Round → List Call
calls_of [] = []
calls_of (r ∷ rounds) =
    let rest = calls_of rounds in
    r.between ++ call_of r ++ (if is_broken r.selected || r.stopped then [] else rest)

run-append :
    (mgt : SessionMgt) (calls more : List Call)
    → Calls.run mgt (calls ++ more) ≡ Calls.run (Calls.run mgt calls) more
unfolding Calls.run
run-append mgt [] more = refl
run-append mgt (c ∷ calls) more = run-append (step mgt c) calls more

abbrev code_of : Selected → ℤ
code_of ready = pos 0
code_of expired = pos 0
code_of (failed errno) = if errno == 4 then pos 0 else if errno == 22 then negsuc 0 else negsuc 1

module _ (timer : SelectTimer) (handled : timer.handler ≡ some 0) where
  -- Of one wait: `svc` with its handler makes the calls of the round, and nothing else.
  svc_session_runs :
      (s : Selected) (between : List Call) (clock : TimeStamp) (stopped : Bool) (mgt : SessionMgt)
      → let r : Round = record {
        between = between;
        selected = s;
        clock = clock;
        stopped = stopped;
      } in
        svc_session timer r mgt ≡ some (code_of s, Calls.run mgt (between ++ call_of r))
  unfolding svc_session svc Calls.run step
  svc_session_runs ready between clock stopped mgt = ground (arith, append-nil between)
  svc_session_runs expired between clock stopped mgt =
      rw (handled, run-append mgt between (checks clock ∷ [])) refl
  svc_session_runs (failed errno) between clock stopped mgt = rw (append-nil between) refl

  code_broken : (s : Selected) → eq_ℤ (code_of s) (pos 0) ≡ not (is_broken s)
  code_broken ready = refl
  code_broken expired = refl
  code_broken (failed errno) = ground arith

  timer_loop_runs :
      (rounds : List Round) (mgt : SessionMgt)
      → (ended : Ended) × (timer_loop timer rounds mgt
          ≡ some (ended, Calls.run mgt (calls_of rounds)))
  unfolding timer_loop Calls.run
  timer_loop_runs [] mgt = (serves, refl)
  timer_loop_runs (r ∷ rounds) mgt =
      let after = Calls.run mgt (r.between ++ call_of r) in
      let served : svc_session timer r mgt ≡ some (code_of r.selected, after) =
        svc_session_runs r.selected r.between r.clock r.stopped mgt in
      let (ended, rest) = timer_loop_runs rounds after in
      elim (Bool-cases (is_broken r.selected)) [
        | inl broken ↦ (
          cleaned,
          rw
              (
                served,
                timer_loop,
                code_broken r.selected,
                broken,
                append-nil (r.between ++ call_of r),
              )
              refl,
        )
        | inr fine ↦ elim (Bool-cases r.stopped) [
          | inl stopped ↦ (
            cleaned,
            rw
                (
                  served,
                  timer_loop,
                  code_broken r.selected,
                  fine,
                  stopped,
                  append-nil (r.between ++ call_of r),
                )
                refl,
          )
          | inr goes_on ↦ (
            ended,
            ground (
              arith,
              served,
              fine,
              goes_on,
              code_broken r.selected,
              rest,
              run-append mgt (r.between ++ call_of r) (calls_of rounds),
            ),
          )
        ]
      ]

-- The start of a new timer: its code, the threads, and the timer.
started_timer :
    (sec usec : ℕ) (attr : ℤ) (creation : Creation)
    → let l : Launch = record { attr = attr; creation = creation } in
      let (code, t) = init_session_timer l (constructed sec usec) in
      (code ≡ (if is_launched l then pos 0 else negsuc 0))
      × (t.thread.threads ≡ (if eq_ℤ attr (pos 0) then started (creation ∷ []) else []))
      × (t.timer.handler ≡ some 0)
      × (get_interval t.timer ≡ tcp_idle_timeout)
unfolding init_session_timer constructed init run Thread.init Thread.run Thread.make
    register_timer_handler get_interval
started_timer sec usec attr (created thread code) = elim (Bool-cases (eq_ℤ attr (pos 0))) [
  | inl fine ↦ elim (Bool-cases (eq_ℤ code (pos 0))) [
    | inl kept ↦ rw (fine, kept) (refl, refl, refl, refl)
    | inr lost ↦ rw (fine, lost) (refl, refl, refl, refl)
  ]
  | inr bad ↦ rw (bad, bad) (refl, refl, refl, refl)
]
started_timer sec usec attr (refused code) = elim (Bool-cases (eq_ℤ attr (pos 0))) [
  | inl fine ↦ elim (Bool-cases (eq_ℤ code (pos 0))) [
    | inl kept ↦ rw (fine, kept) (refl, refl, refl, refl)
    | inr lost ↦ rw (fine, lost) (refl, refl, refl, refl)
  ]
  | inr bad ↦ rw (bad, bad) (refl, refl, refl, refl)
]

-- `InitSessionTimer` on a new timer returns 0 where pthread gives the attributes and a thread and
-- detaches it, and -1 else; the thread is started even where it is not detached. The interval of
-- the timer is the limit of idle sessions. On the instance of TSingleton,
-- which the handler checks, with any history, the thread of the timer makes one `check`, by the clock it reads then, for each wait that ran its time, among the calls
-- of other threads, as long as the timer is not stopped and `select` has not failed, an
-- interrupt excepted; it does nothing else, and over less than 2 ^ 64 calls the maps agree.
pub session_timer_checks :
    (sec usec : ℕ) (l : Launch) (calls : List Call) (rounds : List Round)
    → length (calls ++ calls_of rounds) < 2 ^ 64
    → let (code, t) = init_session_timer l (constructed sec usec) in
      let mgt = Calls.run SessionMgt.init (calls ++ calls_of rounds) in
      (code ≡ (if is_launched l then pos 0 else negsuc 0))
      × (t.thread.threads ≡ (if eq_ℤ l.attr (pos 0) then started (l.creation ∷ []) else []))
      × (get_interval t.timer ≡ tcp_idle_timeout)
      × ((ended : Ended) × (timer_loop t.timer rounds (Calls.run SessionMgt.init calls)
            ≡ some (ended, mgt)))
      × IsConsistent mgt
session_timer_checks sec usec l calls rounds h =
    let (code, threads, handler, interval) = started_timer sec usec l.attr l.creation in
    let t = (init_session_timer l (constructed sec usec)).1 in
    let (ended, runs) = timer_loop_runs t.timer handler rounds (Calls.run SessionMgt.init calls) in
    (
      code,
      threads,
      interval,
      (ended, rw (run-append SessionMgt.init calls (calls_of rounds)) runs),
      run-IsConsistent (calls ++ calls_of rounds) h,
    )

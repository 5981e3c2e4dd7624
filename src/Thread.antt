-- ===== src/Thread.antt =====
-- src/Thread.h and src/Thread.cpp: an object that starts threads. The virtual methods and the
-- calls of pthread are not of this class: what they return is an argument.
pub mod Runs
pub mod Lifecycle
use cpplib.Prelude.{
  take, ℕ, zero, suc, ◌+◌, ℤ, pos, negsuc, eq_ℤ, Bool, true, false, not, Option, none, some, List,
  [], ◌∷◌, ◌++◌, length, if◌then◌else◌,
}

pub data StStatus : Type 0 where
  st_init : StStatus
  st_run : StStatus
  st_exit : StStatus

pub record Thread : Type 0 where
  pub thr_cnt : ℕ
  pub status : StStatus
  pub stop : Bool
  pub detach : Bool
  pub threads : List ℕ

-- The constructor.
unfoldable pub make : Thread
make = record { thr_cnt = 1; status = st_exit; stop = false; detach = true; threads = [] }

unfoldable pub thr_count : Thread → ℕ
thr_count t = length t.threads

abbrev pub thr_status : StStatus → Thread → Thread
thr_status status t = record t { status = status }

-- The method `stop`.
abbrev pub call_stop : Thread → Thread
call_stop t = record t { stop = true }

-- `init`, by the results of `pthread_attr_init`, `pthread_attr_setstacksize`, which is 0 where it
-- is not called, and `do_init`.
unfoldable pub init : ℕ → Bool → ℤ → ℤ → ℤ → Thread → ℤ × Thread
init thr_cnt detach attr stack done t =
    let set = record t { stop = false; detach = detach; thr_cnt = thr_cnt } in
    let fresh =
      if not (eq_ℤ attr (pos 0))
      then (attr, set)
      else if not (eq_ℤ stack (pos 0))
      then (stack, set)
      else if eq_ℤ done (pos 0)
      then (pos 0, record set { status = st_init })
      else (done, set) in
    elim t.status [ st_init ↦ (pos 0, t) | st_run ↦ fresh | st_exit ↦ fresh ]

-- A `pthread_create` that gave a thread, with the result of `pthread_detach` on it, or failed.
pub data Creation : Type 0 where
  created : ℕ → ℤ → Creation
  refused : ℤ → Creation

-- What the loop of `run` carries: the object, `nRet`, and the threads that were detached.
pub record Running : Type 0 where
  pub object : Thread
  pub ret : ℤ
  pub detached : List ℕ

pub create : Creation → Running → Running
create (refused code) r = record r { ret = code }
create (created thread code) r = record {
  object = record r.object { threads = r.object.threads ++ thread ∷ []; status = st_run };
  ret = if r.object.detach then code else pos 0;
  detached = if r.object.detach then r.detached ++ thread ∷ [] else r.detached;
}

-- The loop, one creation for each round.
pub run_loop : List Creation → Running → Running
unfolding create
run_loop [] r = r
run_loop (c ∷ creations) r = run_loop creations (create c r)

-- `run`, by what the creations and the join at the end give; the join is made where threads are
-- not detached.
unfoldable pub run : List Creation → ℤ → Thread → Running
unfolding run_loop
run creations joined t =
    let start : Running = record { object = t; ret = pos 0; detached = [] } in
    let r = run_loop (take t.thr_cnt creations) start in
    elim t.status [
      | st_init ↦ if t.detach then r else record r { ret = joined }
      | st_run ↦ record start { ret = negsuc 1 }
      | st_exit ↦ record start { ret = negsuc 1 }
    ]

-- What a thread has done: it goes on, it ended with its own status, or it ended before `svc`.
pub data Ended : Type 0 where
  serves : Ended
  cleaned : Ended
  unprepared : Ended

-- The loop of `thread_proc`: in each round the result of `svc`, and what `is_stop` returns behind
-- it. The results are the number of calls of `svc` and how the loop ended.
pub proc_loop : List (ℤ × Bool) → ℕ × Ended
proc_loop [] = (0, serves)
proc_loop ((ret, is_stop) ∷ rounds) =
    let (calls, ended) = proc_loop rounds in
    if not (eq_ℤ ret (pos 0))
    then (1, cleaned)
    else if is_stop
    then (1, cleaned)
    else (suc calls, ended)

unfoldable pub thread_proc : ℤ → List (ℤ × Bool) → Thread → ℕ × Ended × Thread
unfolding proc_loop
thread_proc prepared rounds t =
    let (calls, ended) = proc_loop rounds in
    if not (eq_ℤ prepared (pos 0)) then (0, unprepared, t) else (
      calls,
      ended,
      elim ended [ cleaned ↦ record t { status = st_exit } | serves ↦ t | unprepared ↦ t ],
    )

-- ===== src/Thread/Lifecycle.antt =====
-- The threads of an object of src/Thread.cpp, and the one that calls `init`, `run` and `exit`, by their
-- accesses to the object in any interleaving. No lock guards the object: each access is a step.
pub mod Stopping
pub mod Status
use cpplib.Prelude.{
  update, ℕ, zero, suc, ◌<◌, ℤ, pos, eq_ℤ, Bool, true, false, List, [], ◌∷◌, ◌++◌, ◌≡◌, ◌≢◌,
  if◌then◌else◌,
}
use cpplib.Thread
use cpplib.Thread.{thr_status, call_stop, Thread, StStatus, st_init, st_run, st_exit}

-- Where a thread stands in `thread_proc`: it has not been created; it is ahead of `prepare`, of
-- `svc`, of the test of `is_stop`, of `clean_up` or of the write of the status; or it has ended.
pub data Proc : Type 0 where
  absent : Proc
  preparing : Proc
  serving : Proc
  testing : Proc
  cleaning : Proc
  exiting : Proc
  ended : Proc

-- Where the caller stands: in no method; in `run` with rounds left, ahead of `pthread_create`, of
-- `push_back`, of the write of the status or of `detach`; or in `join` behind the loop.
pub data Caller : Type 0 where
  idle : Caller
  creating : ℕ → Caller
  keeping : ℕ → ℕ → Caller
  marking : ℕ → ℕ → Caller
  detaching : ℕ → ℕ → Caller
  joining : Caller

pub record System : Type 0 where
  pub object : Thread
  pub caller : Caller
  pub proc : ℕ → Proc

-- A step of `thread_proc` on the object: what `prepare` and `svc` return is open, and
-- `svc` may call `exit`, which does not return.
pub data Move (t : Thread) : Proc → Thread → Proc → Type 0 where
  prepares : Move t preparing t serving
  fails_to_prepare : Move t preparing t ended
  serves : Move t serving t testing
  fails : Move t serving t cleaning
  calls_exit : Move t serving t ended
  is_stopped : t.stop ≡ true → Move t testing t cleaning
  goes_on : t.stop ≡ false → Move t testing t serving
  cleans : Move t cleaning t exiting
  exits : Move t exiting (thr_status st_exit t) ended

-- Where the caller goes behind the write of the status.
abbrev pub marked : Bool → ℕ → ℕ → Caller
marked true i k = detaching i k
marked false i k = creating k

-- Where it goes behind the loop.
abbrev pub left : Bool → Caller
left true = idle
left false = joining

-- A step of the caller, who has the first `n` threads to create.
pub data Call (n : ℕ) (s : System) : System → Type 0 where
  inits :
      (thr_cnt : ℕ) (detach : Bool) (attr stack done : ℤ)
      → s.caller ≡ idle
      → Call n s (record s { object = (Thread.init thr_cnt detach attr stack done s.object).1 })
  runs :
      s.caller ≡ idle
      → s.object.status ≡ st_init
      → Call n s (record s { caller = creating s.object.thr_cnt })
  creates :
      (i k : ℕ)
      → s.caller ≡ creating (suc k)
      → i < n
      → s.proc i ≡ absent
      → Call n s (record s { caller = keeping i k; proc = update s.proc i preparing })
  is_refused : (k : ℕ) → s.caller ≡ creating (suc k) → Call n s (record s { caller = creating k })
  keeps :
      (i k : ℕ)
      → s.caller ≡ keeping i k
      → Call n s (record s {
        object = record s.object { threads = s.object.threads ++ i ∷ [] };
        caller = marking i k;
      })
  marks :
      (i k : ℕ)
      → s.caller ≡ marking i k
      → Call n s (record s {
        object = record s.object { status = st_run };
        caller = marked s.object.detach i k;
      })
  detaches : (i k : ℕ) → s.caller ≡ detaching i k → Call n s (record s { caller = creating k })
  leaves : s.caller ≡ creating zero → Call n s (record s { caller = left s.object.detach })
  joins : s.caller ≡ joining → Call n s (record s { caller = idle })

pub data Step (n : ℕ) (s : System) : System → Type 0 where
  calls : {t : System} → Call n s t → Step n s t
  moves :
      (i : ℕ) {object : Thread} {p : Proc}
      → i < n
      → Move s.object (s.proc i) object p
      → Step n s (record s { object = object; proc = update s.proc i p })
  stops : Step n s (record s { object = call_stop s.object })

abbrev pub initial : System
initial = record { object = Thread.make; caller = idle; proc = λ i. absent }

pub data Reach (n : ℕ) : System → Type 0 where
  start : Reach n initial
  later : {s t : System} → Reach n s → Step n s t → Reach n t

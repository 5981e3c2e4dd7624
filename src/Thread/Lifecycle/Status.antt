-- ===== src/Thread/Lifecycle/Status.antt =====
-- What the object of src/Thread.cpp tells of its threads.
use cpplib.Prelude.{
  total, total-update, update, update-own, update-kept, ℕ, zero, suc, ◌+◌, ◌<◌, ◌≡◌, ◌≢◌, refl, ◌∙◌,
  ap, ◌⊎◌, inl, inr, arith, [], ◌∷◌, length-append, Bool, ℤ,
}
use cpplib.Thread
use cpplib.Thread.{thr_count, Thread, StStatus, st_init, st_run, st_exit}
use cpplib.Thread.Lifecycle.{
  Proc, absent, preparing, ended, Move, prepares, fails_to_prepare, serves, fails, calls_exit,
  is_stopped, goes_on, cleans, exits, Caller, idle, keeping, marked, left, System, Call, inits,
  runs, creates, is_refused, keeps, marks, detaches, leaves, joins, calls, moves, stops, Reach,
  start, later,
}

-- A thread that has been created.
abbrev pub created : Proc → ℕ
created absent = 0
created _ = 1

-- The thread that the caller has created and not kept yet.
abbrev pub unkept : Caller → ℕ
unkept (keeping i k) = 1
unkept _ = 0

abbrev IsCounted : ℕ → System → Type 0
IsCounted n s = thr_count s.object + unkept s.caller ≡ total created n s.proc

-- Nothing has run yet, or a thread has ended.
abbrev pub HasEnded : ℕ → System → Type 0
HasEnded n s =
    ((s.caller ≡ idle) × ((i : ℕ) → s.proc i ≡ absent)) ⊎ ((i : ℕ) × (i < n) × (s.proc i ≡ ended))

record IsTold (n : ℕ) (s : System) : Type 0 where
  counted : IsCounted n s
  exited : s.object.status ≡ st_exit → HasEnded n s

marked-unkept : (s : System) (i k : ℕ) → unkept (marked s.object.detach i k) ≡ 0
marked-unkept s i k = ground arith

left-unkept : (s : System) → unkept (left s.object.detach) ≡ 0
left-unkept s = ground arith

-- What `init` does to the two fields.
init_kept :
    (thr_cnt : ℕ) (detach : Bool) (attr stack done : ℤ) (t : Thread)
    → let after = (Thread.init thr_cnt detach attr stack done t).1 in
      (after.threads ≡ t.threads) × (after.status ≡ st_exit → t.status ≡ st_exit)
unfolding Thread.init
init_kept thr_cnt detach attr stack done t = ground arith

Move_tells :
    {t t' : Thread} {p p' : Proc}
    → Move t p t' p'
    → (created p' ≡ created p)
      × (p ≢ absent)
      × (p ≢ ended)
      × (t'.threads ≡ t.threads)
      × (t'.status ≡ st_exit → (t.status ≡ st_exit) ⊎ (p' ≡ ended))
Move_tells prepares = (refl, λ e. absurd cc, λ e. absurd cc, refl, λ e. inl e)
Move_tells fails_to_prepare = (refl, λ e. absurd cc, λ e. absurd cc, refl, λ e. inl e)
Move_tells serves = (refl, λ e. absurd cc, λ e. absurd cc, refl, λ e. inl e)
Move_tells fails = (refl, λ e. absurd cc, λ e. absurd cc, refl, λ e. inl e)
Move_tells calls_exit = (refl, λ e. absurd cc, λ e. absurd cc, refl, λ e. inl e)
Move_tells (is_stopped h) = (refl, λ e. absurd cc, λ e. absurd cc, refl, λ e. inl e)
Move_tells (goes_on h) = (refl, λ e. absurd cc, λ e. absurd cc, refl, λ e. inl e)
Move_tells cleans = (refl, λ e. absurd cc, λ e. absurd cc, refl, λ e. inl e)
Move_tells exits = (refl, λ e. absurd cc, λ e. absurd cc, refl, λ e. inr refl)

move-IsTold :
    (n : ℕ) (s : System) (i : ℕ) (object : Thread) (p : Proc)
    → IsTold n s
    → i < n
    → Move s.object (s.proc i) object p
    → IsTold n (record s { object = object; proc = update s.proc i p })
unfolding thr_count
move-IsTold n s i object p v lt move =
    let (same, not_absent, not_ended, threads, status) = Move_tells move in
    record {
      counted = rw threads (omega (arith, v.counted, same, total-update created n i s.proc p lt));
      exited = λ e. elim (status e) [
        | inr now_ended ↦ inr (i, lt, update-own s.proc i p ∙ now_ended)
        | inl was ↦ elim (v.exited was) [
          | inl (idles, absents) ↦ absurd (not_absent (absents i))
          | inr (j, lt', e') ↦ inr (j, lt', update-kept s.proc i j p refl e' not_ended)
        ]
      ];
    }

-- Behind `runs`, somebody has ended if the status says so.
in_run :
    (n : ℕ) (s : System)
    → IsTold n s
    → s.caller ≢ idle
    → s.object.status ≡ st_exit
    → (i : ℕ) × (i < n) × (s.proc i ≡ ended)
in_run n s v busy e = elim (v.exited e) [
  | inl (idles, absents) ↦ absurd (busy idles)
  | inr one ↦ one
]

call-IsTold : (n : ℕ) (s : System) {t : System} → IsTold n s → Call n s t → IsTold n t
unfolding thr_count
call-IsTold n s v (inits thr_cnt detach attr stack done at) =
    let (threads, status) = init_kept thr_cnt detach attr stack done s.object in
    record { counted = rw threads v.counted; exited = λ e. v.exited (status e) }
call-IsTold n s v (runs at h) = record {
  counted = omega (arith, v.counted, ap unkept at);
  exited = λ e. absurd cc;
}
call-IsTold n s v (creates i k at lt h) = record {
  counted =
      omega (
        arith,
        v.counted,
        ap unkept at,
        ap created h,
        total-update created n i s.proc preparing lt,
      );
  exited = λ e.
      let (j, lt', e') = in_run n s v (λ f. cc) e in
      inr (j, lt', update-kept s.proc i j preparing h e' (λ f. cc));
}
call-IsTold n s v (is_refused k at) = record {
  counted = omega (arith, v.counted, ap unkept at);
  exited = λ e. inr (in_run n s v (λ f. cc) e);
}
call-IsTold n s v (keeps i k at) = record {
  counted = omega (arith, v.counted, ap unkept at, length-append s.object.threads (i ∷ []));
  exited = λ e. inr (in_run n s v (λ f. cc) e);
}
call-IsTold n s v (marks i k at) = record {
  counted = omega (arith, v.counted, ap unkept at, marked-unkept s i k);
  exited = λ e. absurd cc;
}
call-IsTold n s v (detaches i k at) = record {
  counted = omega (arith, v.counted, ap unkept at);
  exited = λ e. inr (in_run n s v (λ f. cc) e);
}
call-IsTold n s v (leaves at) = record {
  counted = omega (arith, v.counted, ap unkept at, left-unkept s);
  exited = λ e. inr (in_run n s v (λ f. cc) e);
}
call-IsTold n s v (joins at) = record {
  counted = omega (arith, v.counted, ap unkept at);
  exited = λ e. inr (in_run n s v (λ f. cc) e);
}

total_absent : (n : ℕ) → total created n (λ i. absent) ≡ 0
unfolding total
total_absent zero = refl
total_absent (suc n) = omega (arith, total_absent n)

Reach-IsTold : (n : ℕ) (s : System) → Reach n s → IsTold n s
unfolding Thread.make thr_count
Reach-IsTold n s start = record {
  counted = omega (arith, total_absent n);
  exited = λ e. inl (refl, λ i. refl);
}
Reach-IsTold n s (later {s = before} r (calls call)) =
    call-IsTold n before (Reach-IsTold n before r) call
Reach-IsTold n s (later {s = before} r (moves i {object} {p} lt move)) =
    move-IsTold n before i object p (Reach-IsTold n before r) lt move
Reach-IsTold n s (later {s = before} r stops) =
    let v = Reach-IsTold n before r in record { counted = v.counted; exited = v.exited }

-- In every interleaving of the calls of `init` and `run`, of the threads that they start and of
-- calls of `stop`: `thr_count` is the number of threads that were created, less one between the
-- creation of a thread and its `push_back`; and where the status is that of an exit, either the
-- caller is in no method and no thread was ever created, or a thread has ended.
pub object_tells :
    (n : ℕ) (s : System)
    → Reach n s
    → (thr_count s.object + unkept s.caller ≡ total created n s.proc)
      × (s.object.status ≡ st_exit → HasEnded n s)
object_tells n s r = let v = Reach-IsTold n s r in (v.counted, v.exited)

-- ===== src/Thread/Runs.antt =====
-- The threads that `run` of src/Thread.cpp starts, and what each does.
use cpplib.Prelude.{
  List-cases, take, ap, ℕ, suc, ℤ, pos, negsuc, eq_ℤ, Bool, true, false, List, [], ◌∷◌, ◌++◌,
  append_assoc, append-nil, length, if◌then◌else◌, All, ◌≡◌, ◌⊎◌, inl, inr, refl, ◌∙◌, arith,
  Bool-cases,
}
use cpplib.Thread.{
  Thread, StStatus, st_init, st_run, st_exit, Creation, created, refused, Running, create, run_loop,
  run, proc_loop, thread_proc, cleaned,
}

-- The threads that came about, in order.
abbrev pub started : List Creation → List ℕ
started [] = []
started (refused code ∷ creations) = started creations
started (created thread code ∷ creations) = thread ∷ started creations

abbrev pub status_after : StStatus → List ℕ → StStatus
status_after before [] = before
status_after before (_ ∷ _) = st_run

-- What the rounds add to the object.
record Adds (creations : List Creation) (r after : Running) : Type 0 where
  threads : after.object.threads ≡ r.object.threads ++ started creations
  status : after.object.status ≡ status_after r.object.status (started creations)
  detached :
      after.detached ≡ (if r.object.detach then r.detached ++ started creations else r.detached)
  detach : after.object.detach ≡ r.object.detach

status_run : (threads : List ℕ) → status_after st_run threads ≡ st_run
status_run [] = refl
status_run (_ ∷ _) = refl

run_loop-Adds : (creations : List Creation) (r : Running) → Adds creations r (run_loop creations r)
unfolding run_loop create
run_loop-Adds [] r = record {
  threads = ground (arith, append-nil r.object.threads);
  status = refl;
  detached = ground (arith, append-nil r.detached);
  detach = refl;
}
run_loop-Adds (refused code ∷ creations) r =
    let rest = run_loop-Adds creations (record r { ret = code }) in
    record {
      threads = rest.threads;
      status = rest.status;
      detached = rest.detached;
      detach = rest.detach;
    }
run_loop-Adds (created thread code ∷ creations) r =
    let rest = run_loop-Adds creations (create (created thread code) r) in
    record {
      threads = rest.threads ∙ append_assoc r.object.threads (thread ∷ []) (started creations);
      status = rest.status ∙ status_run (started creations);
      detached = elim (Bool-cases r.object.detach) [
        | inl detaches ↦ ground (
          arith,
          detaches,
          rest.detached,
          append_assoc r.detached (thread ∷ []) (started creations),
        )
        | inr joins ↦ ground (arith, joins, rest.detached)
      ];
      detach = rest.detach;
    }

run-loop :
    (creations : List Creation) (joined : ℤ) (t : Thread)
    → t.status ≡ st_init
    → let r =
        run_loop (take t.thr_cnt creations) (record { object = t; ret = pos 0; detached = [] }) in
      ((run creations joined t).object ≡ r.object)
      × ((run creations joined t).detached ≡ r.detached)
unfolding run
run-loop creations joined t e = (ground (arith, e), ground (arith, e))

run-refused :
    (creations : List Creation) (joined : ℤ) (t : Thread)
    → t.status ≡ st_run
    → run creations joined t ≡ record { object = t; ret = negsuc 1; detached = [] }
unfolding run
run-refused creations joined t e = ground (arith, e)

-- `run` on an object that is initialised tries to create as many threads as `init` was told, keeps
-- those that came about, in order, whichever creations failed, and detaches just these if it was
-- told to. If there is one, the object is
-- running, and a second `run` returns -2 and changes nothing; else its status stays.
pub run_starts :
    (creations more : List Creation) (joined again : ℤ) (t : Thread)
    → t.status ≡ st_init
    → let after = run creations joined t in
      let rounds = take t.thr_cnt creations in
      (after.object.threads ≡ t.threads ++ started rounds)
      × (after.detached ≡ (if t.detach then started rounds else []))
      × (((started rounds ≡ []) × (after.object.status ≡ st_init))
          ⊎ ((after.object.status ≡ st_run)
              × (run more again after.object
                  ≡ record { object = after.object; ret = negsuc 1; detached = [] })))
run_starts creations more joined again t e =
    let rounds = take t.thr_cnt creations in
    let start : Running = record { object = t; ret = pos 0; detached = [] } in
    let adds = run_loop-Adds rounds start in
    let (same, detached) = run-loop creations joined t e in
    let status : (run creations joined t).object.status ≡ status_after t.status (started rounds) =
      ap (λ (o : Thread). o.status) same ∙ adds.status in
    (
      ap (λ (o : Thread). o.threads) same ∙ adds.threads,
      detached ∙ adds.detached,
      elim (List-cases (started rounds)) [
        | inl none_came ↦ inl (none_came, ground (arith, status, none_came, e))
        | inr (thread, rest, some_came) ↦
            let runs : (run creations joined t).object.status ≡ st_run =
              ground (arith, status, some_came) in
            inr (runs, run-refused more again (run creations joined t).object runs)
      ],
    )

-- Rounds that neither fail nor are stopped.
abbrev pub AreServed : List (ℤ × Bool) → Type 0
AreServed rounds = All (λ r. (r.0 ≡ pos 0) × (r.1 ≡ false)) rounds

proc_loop_ends :
    (front more : List (ℤ × Bool)) (ret : ℤ) (is_stop : Bool)
    → AreServed front
    → (eq_ℤ ret (pos 0) ≡ false) ⊎ (is_stop ≡ true)
    → proc_loop (front ++ (ret, is_stop) ∷ more) ≡ (suc (length front), cleaned)
unfolding proc_loop
proc_loop_ends [] more ret is_stop h last = ground (arith, last)
proc_loop_ends ((r, s) ∷ front) more ret is_stop h last =
    ground (arith, h.0.0, h.0.1, proc_loop_ends front more ret is_stop h.1 last)

-- A prepared thread calls `svc` again and again until it returns a failure, or the object is
-- stopped behind a call; with that call it ends, cleans up and sets its status to exited.
pub thread_proc_ends :
    (front more : List (ℤ × Bool)) (ret : ℤ) (is_stop : Bool) (t : Thread)
    → AreServed front
    → (eq_ℤ ret (pos 0) ≡ false) ⊎ (is_stop ≡ true)
    → thread_proc (pos 0) (front ++ (ret, is_stop) ∷ more) t
      ≡ (suc (length front), cleaned, record t { status = st_exit })
unfolding thread_proc
thread_proc_ends front more ret is_stop t h last =
    ground (arith, proc_loop_ends front more ret is_stop h last)

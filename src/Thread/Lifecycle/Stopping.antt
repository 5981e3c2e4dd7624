-- ===== src/Thread/Lifecycle/Stopping.antt =====
-- The threads of src/Thread.cpp behind a call of `stop`.
use cpplib.Prelude.{
  total, total-update, ℕ, zero, suc, ◌+◌, ◌*◌, ◌≤◌, ◌<◌, ◌≡◌, refl, true, ◌⊎◌, inl, inr, arith,
  update,
}
use cpplib.Thread.{Thread}
use cpplib.Thread.Lifecycle.{
  Proc, absent, preparing, serving, testing, cleaning, exiting, ended, Move, prepares,
  fails_to_prepare, serves, fails, calls_exit, is_stopped, goes_on, cleans, exits, System,
}

-- The calls of `svc` in a step.
abbrev pub svc_calls : {t t' : Thread} {p p' : Proc} → Move t p t' p' → ℕ
svc_calls prepares = 0
svc_calls fails_to_prepare = 0
svc_calls serves = 1
svc_calls fails = 1
svc_calls calls_exit = 1
svc_calls (is_stopped e) = 0
svc_calls (goes_on e) = 0
svc_calls cleans = 0
svc_calls exits = 0

-- Steps of the first `n` threads: their number, and that of the calls of `svc` among them.
pub data Moves (n : ℕ) (s : System) : ℕ → ℕ → System → Type 0 where
  none_yet : Moves n s 0 0 s
  then_moves :
      (i : ℕ) {k c : ℕ} {t : System} {object : Thread} {p : Proc}
      → Moves n s k c t
      → i < n
      → (move : Move t.object (t.proc i) object p)
      → Moves n s
          (suc k)
          (c + svc_calls move)
          (record t { object = object; proc = update t.proc i p })

-- What a thread of a stopped object has left: its steps, and its calls of `svc`.
rank : Proc → ℕ
rank absent = 0
rank preparing = 5
rank serving = 4
rank testing = 3
rank cleaning = 2
rank exiting = 1
rank ended = 0

svc_rank : Proc → ℕ
svc_rank absent = 0
svc_rank preparing = 1
svc_rank serving = 1
svc_rank testing = 0
svc_rank cleaning = 0
svc_rank exiting = 0
svc_rank ended = 0

Move-rank :
    {t t' : Thread} {p p' : Proc} (move : Move t p t' p')
    → t.stop ≡ true
    → (rank p' < rank p) × (svc_rank p' + svc_calls move ≤ svc_rank p) × (t'.stop ≡ true)
unfolding rank svc_rank
Move-rank prepares h = (omega arith, omega arith, h)
Move-rank fails_to_prepare h = (omega arith, omega arith, h)
Move-rank serves h = (omega arith, omega arith, h)
Move-rank fails h = (omega arith, omega arith, h)
Move-rank calls_exit h = (omega arith, omega arith, h)
Move-rank (is_stopped e) h = (omega arith, omega arith, h)
Move-rank (goes_on e) h = absurd cc
Move-rank cleans h = (omega arith, omega arith, h)
Move-rank exits h = (omega arith, omega arith, h)

Moves-total :
    (n : ℕ) (s : System) (k c : ℕ) (t : System)
    → s.object.stop ≡ true
    → Moves n s k c t
    → (k + total rank n t.proc ≤ total rank n s.proc)
      × (c + total svc_rank n t.proc ≤ total svc_rank n s.proc)
      × (t.object.stop ≡ true)
Moves-total n s k c t h none_yet = (omega arith, omega arith, h)
Moves-total n s k c t h (then_moves i {k = l} {c = d} {t = before} {p = p} done lt move) =
    let (steps, svcs, stop) = Moves-total n s l d before h done in
    let (less, fewer, stays) = Move-rank move stop in
    (
      omega (arith, steps, less, total-update rank n i before.proc p lt),
      omega (arith, svcs, fewer, total-update svc_rank n i before.proc p lt),
      stays,
    )

rank_bounds : (p : Proc) → (rank p ≤ 5) × (svc_rank p ≤ 1)
unfolding rank svc_rank
rank_bounds absent = (omega arith, omega arith)
rank_bounds preparing = (omega arith, omega arith)
rank_bounds serving = (omega arith, omega arith)
rank_bounds testing = (omega arith, omega arith)
rank_bounds cleaning = (omega arith, omega arith)
rank_bounds exiting = (omega arith, omega arith)
rank_bounds ended = (omega arith, omega arith)

total_bounds : (n : ℕ) (proc : ℕ → Proc) → (total rank n proc ≤ n * 5) × (total svc_rank n proc ≤ n)
unfolding total
total_bounds zero proc = (omega arith, omega arith)
total_bounds (suc n) proc =
    let (steps, svcs) = total_bounds n proc in
    let (five, one) = rank_bounds (proc n) in (omega (arith, steps, five), omega (arith, svcs, one))

-- A step of one thread by itself.
abbrev pub CanMove : Thread → Proc → Type 0
CanMove t p = (t' : Thread) × (p' : Proc) × Move t p t' p'

can_move : (t : Thread) (p : Proc) → t.stop ≡ true → ((p ≡ absent) ⊎ (p ≡ ended)) ⊎ CanMove t p
can_move t absent h = inl (inl refl)
can_move t preparing h = inr (t, serving, prepares)
can_move t serving h = inr (t, testing, serves)
can_move t testing h = inr (t, cleaning, is_stopped h)
can_move t cleaning h = inr (t, exiting, cleans)
can_move t exiting h = inr (_, ended, exits)
can_move t ended h = inl (inr refl)

-- Behind a call of `stop`, in any interleaving of the steps of `n` threads, whatever `prepare` and
-- `svc` return: the threads make at most 5 n steps more and call `svc` at most once each, and each
-- thread that is in `thread_proc` can make its next step itself, whatever the others do. No thread
-- waits for another, and all of them end.
pub stop_ends :
    (n : ℕ) (s : System) (k c : ℕ) (t : System)
    → s.object.stop ≡ true
    → Moves n s k c t
    → (k ≤ n * 5)
      × (c ≤ n)
      × ((i : ℕ) → ((t.proc i ≡ absent) ⊎ (t.proc i ≡ ended)) ⊎ CanMove t.object (t.proc i))
stop_ends n s k c t h done =
    let (steps, svcs, stop) = Moves-total n s k c t h done in
    let (most_steps, most_svcs) = total_bounds n s.proc in
    (
      omega (arith, steps, most_steps),
      omega (arith, svcs, most_svcs),
      λ i. can_move t.object (t.proc i) stop,
    )

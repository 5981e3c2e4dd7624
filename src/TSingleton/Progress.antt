-- ===== src/TSingleton/Progress.antt =====
-- The calls of `GetInstance` in src/TSingleton.h end.
use cpplib.Prelude.{
  total, total-update, ℕ, zero, suc, ◌+◌, ◌*◌, ◌≤◌, ◌<◌, ◌≡◌, refl, Option, none, some, true, subst,
  ◌⊎◌, inl, inr, Option-cases, arith,
}
use cpplib.TSingleton.{
  Memory, Pc, entering, locking, checking, making, unlocking, returning, returned, Move, sees,
  misses, locks, sees_again, misses_again, makes, unlocks, returns, System, Step, pick, initial,
  Reach, start, later,
}
use cpplib.TSingleton.Once.{is_inside, HolderInside, IsOnce, Reach-IsOnce}

-- The steps that a call has left, at most.
rank : Pc → ℕ
rank entering = 6
rank locking = 5
rank checking = 4
rank making = 3
rank unlocking = 2
rank returning = 1
rank (returned p) = 0

Move-rank : (i : ℕ) (m m' : Memory) (p p' : Pc) → Move i m p m' p' → rank p' < rank p
unfolding rank
Move-rank i m m' p p' (sees e) = omega arith
Move-rank i m m' p p' (misses e) = omega arith
Move-rank i m m' p p' (locks e) = omega arith
Move-rank i m m' p p' (sees_again e) = omega arith
Move-rank i m m' p p' (misses_again e) = omega arith
Move-rank i m m' p p' makes = omega arith
Move-rank i m m' p p' unlocks = omega arith
Move-rank i m m' p p' returns = omega arith

Step-total : (n : ℕ) (s t : System) → Step n s t → total rank n t.pc < total rank n s.pc
Step-total n s t (pick i {m} {p} lt mv) =
    omega (arith, total-update rank n i s.pc p lt, Move-rank i s.mem m (s.pc i) p mv)

Reach-total : (n k : ℕ) (s : System) → Reach n k s → k + total rank n s.pc ≤ total rank n initial.pc
Reach-total n k s start = omega arith
Reach-total n k s (later {k = l} {s = before} r step) =
    omega (arith, Reach-total n l before r, Step-total n before s step)

total-initial : (n : ℕ) → total rank n initial.pc ≡ n * 6
unfolding total rank
total-initial zero = refl
total-initial (suc n) = omega (arith, total-initial n)

-- A thread that waits for the lock moves only if it is free.
abbrev IsFree : Memory → Pc → Type 0
IsFree m locking = m.holder ≡ none
IsFree m _ = Unit

abbrev CanMove : ℕ → Memory → Pc → Type 0
CanMove i m p = (m' : Memory) × (p' : Pc) × Move i m p m' p'

inside-CanMove : (i : ℕ) (m : Memory) (p : Pc) → is_inside p ≡ true → CanMove i m p
inside-CanMove i m entering h = absurd cc
inside-CanMove i m locking h = absurd cc
inside-CanMove i m checking h = elim (Option-cases m.p_instance) [
  | inl e ↦ (m, making, misses_again e)
  | inr (q, e) ↦ (m, unlocking, sees_again e)
]
inside-CanMove i m making h = (_, unlocking, makes)
inside-CanMove i m unlocking h = (_, returning, unlocks)
inside-CanMove i m returning h = absurd cc
inside-CanMove i m (returned q) h = absurd cc

moves :
    (i : ℕ) (m : Memory) (p : Pc) → IsFree m p → ((q : Option ℕ) × (p ≡ returned q)) ⊎ CanMove i m p
moves i m entering h = elim (Option-cases m.p_instance) [
  | inl e ↦ inr (m, locking, misses e)
  | inr (q, e) ↦ inr (m, returning, sees e)
]
moves i m locking h = inr (_, checking, locks h)
moves i m checking h = inr (inside-CanMove i m checking refl)
moves i m making h = inr (inside-CanMove i m making refl)
moves i m unlocking h = inr (inside-CanMove i m unlocking refl)
moves i m returning h = inr (m, returned m.p_instance, returns)
moves i m (returned q) h = inl (q, refl)

-- All threads have returned.
abbrev pub AllReturned : ℕ → (ℕ → Pc) → Type 0
AllReturned zero pc = Unit
AllReturned (suc n) pc = ((q : Option ℕ) × (pc n ≡ returned q)) × AllReturned n pc

none-IsFree : (m : Memory) (p : Pc) → m.holder ≡ none → IsFree m p
none-IsFree m entering h = tt
none-IsFree m locking h = h
none-IsFree m checking h = tt
none-IsFree m making h = tt
none-IsFree m unlocking h = tt
none-IsFree m returning h = tt
none-IsFree m (returned q) h = tt

abbrev Mover : ℕ → System → Type 0
Mover n s = (i : ℕ) × (i < n) × CanMove i s.mem (s.pc i)

scan : (n r : ℕ) (s : System) → r ≤ n → s.mem.holder ≡ none → AllReturned r s.pc ⊎ Mover n s
scan n zero s h free = inl tt
scan n (suc r) s h free = elim (moves r s.mem (s.pc r) (none-IsFree s.mem (s.pc r) free)) [
  | inr c ↦ inr (r, omega (arith, h), c)
  | inl q ↦ elim (scan n r s (omega (arith, h)) free) [ inl rest ↦ inl (q, rest) | inr c ↦ inr c ]
]

IsOnce-Mover : (n : ℕ) (s : System) → IsOnce n s → AllReturned n s.pc ⊎ Mover n s
IsOnce-Mover n s inv = elim (Option-cases s.mem.holder) [
  | inl free ↦ scan n n s (omega arith) free
  | inr (h, e) ↦
      let inside : HolderInside n (some h) s.pc = subst (λ o. HolderInside n o s.pc) e inv.held in
      inr (h, inside.0, inside-CanMove h s.mem (s.pc h) inside.1)
]

-- In every interleaving of `n` threads, there are at most 6 n steps, and in every state that is
-- reached a thread can make one more, unless all threads have returned: no call is left waiting.
pub calls_return :
    (n k : ℕ) (s : System)
    → Reach n k s
    → (k ≤ n * 6) × (AllReturned n s.pc ⊎ ((t : System) × Step n s t))
calls_return n k s r = (
  omega (arith, Reach-total n k s r, total-initial n),
  elim (IsOnce-Mover n s (Reach-IsOnce n k s r)) [
    | inl done ↦ inl done
    | inr (i, lt, (m, p, mv)) ↦ inr (_, pick i lt mv)
  ],
)

-- ===== src/TSingleton/Once.antt =====
-- `GetInstance` of src/TSingleton.h makes one object, and gives it to every thread.
use cpplib.Prelude.{
  update, update-own, ℕ, ◌<◌, ◌≡◌, refl, sym, ap, Bool, true, false, Option, none, some, ◌==◌,
  ==_iff, inl, inr, Bool-cases, subst,
}
use cpplib.TSingleton.{
  Memory, Pc, checking, making, unlocking, returned, Move, sees, misses, locks, sees_again,
  misses_again, makes, unlocks, returns, System, Step, pick, Reach, start, later,
}
use cpplib.TSingleton.Holds.{Holds, IsOne, Move-Holds_other, Move-Holds, Move-IsOne}

abbrev pub is_inside : Pc → Bool
is_inside checking = true
is_inside making = true
is_inside unlocking = true
is_inside _ = false

-- The lock is held by a thread inside, if it is held.
abbrev pub HolderInside : ℕ → Option ℕ → (ℕ → Pc) → Type 0
HolderInside n none pc = Unit
HolderInside n (some h) pc = (h < n) × (is_inside (pc h) ≡ true)

pub record IsOnce (n : ℕ) (s : System) : Type 0 where
  pub one : IsOne s.mem
  pub held : HolderInside n s.mem.holder s.pc
  pub threads : (j : ℕ) → Holds s.mem j (s.pc j)

keeps_inside :
    (n i : ℕ) (o : Option ℕ) (pc : ℕ → Pc) (p : Pc)
    → (is_inside (pc i) ≡ true → is_inside p ≡ true)
    → HolderInside n o pc
    → HolderInside n o (update pc i p)
keeps_inside n i none pc p keep h = tt
keeps_inside n i (some j) pc p keep h = elim (Bool-cases (j == i)) [
  | inl same ↦
      let eq = (==_iff j i).0 same in
      rw same (h.0, keep (subst (λ k. is_inside (pc k) ≡ true) eq h.1))
  | inr other ↦ rw other h
]

Move-HolderInside :
    (n i : ℕ) (m m' : Memory) (pc : ℕ → Pc) (p p' : Pc)
    → Move i m p m' p'
    → pc i ≡ p
    → i < n
    → HolderInside n m.holder pc
    → HolderInside n m'.holder (update pc i p')
Move-HolderInside n i m m' pc p p' (sees e) at lt h =
    keeps_inside n i m.holder pc p' (λ k. absurd (let q = ap is_inside at in cc)) h
Move-HolderInside n i m m' pc p p' (misses e) at lt h =
    keeps_inside n i m.holder pc p' (λ k. absurd (let q = ap is_inside at in cc)) h
Move-HolderInside n i m m' pc p p' (locks e) at lt h = (lt, ap is_inside (update-own pc i checking))
Move-HolderInside n i m m' pc p p' (sees_again e) at lt h =
    keeps_inside n i m.holder pc p' (λ k. refl) h
Move-HolderInside n i m m' pc p p' (misses_again e) at lt h =
    keeps_inside n i m.holder pc p' (λ k. refl) h
Move-HolderInside n i m m' pc p p' makes at lt h = keeps_inside n i m.holder pc p' (λ k. refl) h
Move-HolderInside n i m m' pc p p' unlocks at lt h = tt
Move-HolderInside n i m m' pc p p' returns at lt h =
    keeps_inside n i m.holder pc p' (λ k. absurd (let q = ap is_inside at in cc)) h

Step-IsOnce : (n : ℕ) (s t : System) → Step n s t → IsOnce n s → IsOnce n t
Step-IsOnce n s t (pick i {m} {p} lt mv) inv =
    let mine = inv.threads i in
    record {
      one = Move-IsOne i s.mem m (s.pc i) p mv inv.one mine;
      held = Move-HolderInside n i s.mem m s.pc (s.pc i) p mv refl lt inv.held;
      threads = λ j. elim (Bool-cases (j == i)) [
        | inl same ↦
            let eq = (==_iff j i).0 same in
            rw same (rw eq (Move-Holds i s.mem m (s.pc i) p mv inv.one mine))
        | inr other ↦ rw other (
            Move-Holds_other i j s.mem m (s.pc i) p (s.pc j) mv mine
              (λ e. let yes_eq = (==_iff j i).1 (sym e) in cc) (inv.threads j))
      ];
    }

pub Reach-IsOnce : (n k : ℕ) (s : System) → Reach n k s → IsOnce n s
Reach-IsOnce n k s start = record { one = inl (refl, refl); held = tt; threads = λ j. tt }
Reach-IsOnce n k s (later {k = l} {s = before} r step) =
    Step-IsOnce n before s step (Reach-IsOnce n l before r)

allocated_one : (m : Memory) → IsOne m → m.p_instance ≡ some 0 → m.allocated ≡ 1
allocated_one m (inl o) e = let none_yet = o.0 in absurd cc
allocated_one m (inr o) e = o.1

-- In every interleaving of any number of threads whose accesses are in one order for all: two
-- threads that have returned from `GetInstance` have the same pointer, not NULL, and it points to
-- the one object that was made.
pub instance_unique :
    (n k i j : ℕ) (s : System) (p q : Option ℕ)
    → Reach n k s
    → s.pc i ≡ returned p
    → s.pc j ≡ returned q
    → (p ≡ some 0) × (q ≡ some 0) × (s.mem.p_instance ≡ some 0) × (s.mem.allocated ≡ 1)
instance_unique n k i j s p q r at_i at_j =
    let inv = Reach-IsOnce n k s r in
    let first = subst (Holds s.mem i) at_i (inv.threads i) in
    let second = subst (Holds s.mem j) at_j (inv.threads j) in
    (first.0, second.0, first.1, allocated_one s.mem inv.one first.1)

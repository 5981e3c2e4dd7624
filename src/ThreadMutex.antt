-- ===== src/ThreadMutex.antt =====
-- src/ThreadMutex.h and src/ThreadCond.cpp: threads that call methods of one object, each method in
-- the scope of a guard. A step is one access of a thread to the object, so that the accesses of
-- the threads interleave; the mutex and the condition variable are what pthread documents, and
-- none of their calls fails but the waits, whose results are open.
pub mod Serial
pub mod Entries
pub mod Waking
use cpplib.Prelude.{update, ℕ, ℤ, pos, Option, none, some, List, [], ◌∷◌, ◌≡◌, ◌≢◌}

-- The calls of the condition variable that wake other threads: `signal` wakes one, if one waits,
-- and `broadcast` wakes all.
pub data Signal : Type 0 where
  quiet : Signal
  signal : Signal
  broadcast : Signal

-- What follows an access: the next one, a wait, whose result the thread goes on with, or the
-- return from the method.
pub data Next (P R : Type 0) : Type 0 where
  goes_on : P → Next P R
  waits : (ℤ → P) → Next P R
  returns : R → Next P R

pub record Access (S P R : Type 0) : Type 0 where
  pub object : S
  pub signal : Signal
  pub next : Next P R

-- Where a thread stands: in no method; in `lock`, of the guard or of a wait that has ended; in the
-- scope of the guard, with the place where it took the mutex and the place of its next access; or
-- in a wait.
pub data Place (P : Type 0) : Type 0 where
  outside : Place P
  locking : P → Place P
  inside : P → P → Place P
  blocked : (ℤ → P) → Place P

abbrev pub wake : {P : Type 0} → Place P → Place P
wake outside = outside
wake (locking p) = locking p
wake (inside p q) = inside p q
wake (blocked k) = locking (k (pos 0))

pub data Woken {P : Type 0} (place : ℕ → Place P) : Signal → (ℕ → Place P) → Type 0 where
  unheard : Woken place quiet place
  lost : ((j : ℕ) (k : ℤ → P) → place j ≢ blocked k) → Woken place signal place
  first :
      (j : ℕ) {k : ℤ → P}
      → place j ≡ blocked k
      → Woken place signal (update place j (locking (k (pos 0))))
  all : Woken place broadcast (λ j. wake (place j))

-- The turns that have ended, newest first: a thread, where it took the mutex, and how it gave the
-- mutex up.
abbrev pub Turns : Type 0 → Type 0 → Type 0
Turns P R = List (ℕ × P × Next P R)

pub record System (S P R : Type 0) : Type 0 where
  pub mutex : Option ℕ
  pub object : S
  pub place : ℕ → Place P
  pub log : Turns P R

module _ {S P R : Type 0} (access : P → S → Access S P R) (IsMethod : P → Type 0) where
  -- The thread `i` behind an access of the turn that began at `p`, by what follows the access.
  abbrev pub after : ℕ → P → S → Next P R → System S P R → System S P R
  after i p object (goes_on q) s = record s {
    object = object;
    place = update s.place i (inside p q);
  }
  after i p object (waits k) s = record {
    mutex = none;
    object = object;
    place = update s.place i (blocked k);
    log = (i, p, waits k) ∷ s.log;
  }
  after i p object (returns r) s = record {
    mutex = none;
    object = object;
    place = update s.place i outside;
    log = (i, p, returns r) ∷ s.log;
  }

  -- A wait may also end by itself, with any result.
  pub data Step (s : System S P R) : System S P R → Type 0 where
    calls :
        (i : ℕ) (p : P)
        → s.place i ≡ outside
        → IsMethod p
        → Step s (record s { place = update s.place i (locking p) })
    locks :
        (i : ℕ) {p : P}
        → s.place i ≡ locking p
        → s.mutex ≡ none
        → Step s (record s { mutex = some i; place = update s.place i (inside p p) })
    accesses :
        (i : ℕ) {p q : P} {place : ℕ → Place P}
        → s.place i ≡ inside p q
        → Woken s.place (access q s.object).signal place
        → Step s (
            after i p
              (access q s.object).object
              (access q s.object).next
              (record s { place = place }))
    ends :
        (i : ℕ) (code : ℤ) {k : ℤ → P}
        → s.place i ≡ blocked k
        → Step s (record s { place = update s.place i (locking (k code)) })

  abbrev pub initial : S → System S P R
  initial object = record { mutex = none; object = object; place = λ i. outside; log = [] }

  pub data Reach (object : S) : System S P R → Type 0 where
    start : Reach object (initial object)
    later : {s t : System S P R} → Reach object s → Step s t → Reach object t

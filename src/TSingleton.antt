-- ===== src/TSingleton.antt =====
-- src/TSingleton.h: `GetInstance`, called by threads 0, 1, … in any interleaving of their accesses
-- to the shared pointer and its lock, each of which is one step.
pub mod Holds
pub mod Once
pub mod Progress
use cpplib.Prelude.{update, ℕ, suc, ◌<◌, ◌≡◌, Bool, true, false, Option, none, some}

-- `m_pInstance`, with `none` for NULL, the thread that has `m_singleton_lock`, and the number of
-- objects made by `new T`: their numbers count from 0.
pub record Memory : Type 0 where
  pub p_instance : Option ℕ
  pub holder : Option ℕ
  pub allocated : ℕ

-- Where a thread stands in `GetInstance`.
pub data Pc : Type 0 where
  entering : Pc
  locking : Pc
  checking : Pc
  making : Pc
  unlocking : Pc
  returning : Pc
  returned : Option ℕ → Pc

pub data Move (i : ℕ) (m : Memory) : Pc → Memory → Pc → Type 0 where
  sees : {p : ℕ} → m.p_instance ≡ some p → Move i m entering m returning
  misses : m.p_instance ≡ none → Move i m entering m locking
  locks : m.holder ≡ none → Move i m locking (record m { holder = some i }) checking
  sees_again : {p : ℕ} → m.p_instance ≡ some p → Move i m checking m unlocking
  misses_again : m.p_instance ≡ none → Move i m checking m making
  makes :
      Move i m making
        (record m { p_instance = some m.allocated; allocated = suc m.allocated })
        unlocking
  unlocks : Move i m unlocking (record m { holder = none }) returning
  returns : Move i m returning m (returned m.p_instance)

pub record System : Type 0 where
  pub mem : Memory
  pub pc : ℕ → Pc

pub data Step (n : ℕ) (s : System) : System → Type 0 where
  pick :
      (i : ℕ) {m : Memory} {p : Pc}
      → i < n
      → Move i s.mem (s.pc i) m p
      → Step n s (record { mem = m; pc = update s.pc i p })

abbrev pub initial : System
initial = record {
  mem = record { p_instance = none; holder = none; allocated = 0 };
  pc = λ i. entering;
}

-- What `n` threads reach in a number of steps.
pub data Reach (n : ℕ) : ℕ → System → Type 0 where
  start : Reach n 0 initial
  later : {k : ℕ} {s t : System} → Reach n k s → Step n s t → Reach n (suc k) t

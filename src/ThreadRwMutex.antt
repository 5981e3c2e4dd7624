-- ===== src/ThreadRwMutex.antt =====
-- src/ThreadRWMutex.h and src/ThreadRWMutex.cpp: a lock for many readers or one writer, and its
-- guards. The lock of pthread is not of the repository; `RwLock` and `unlocked` are what it
-- documents of its holders.
pub mod Exclusion
use cpplib.Prelude.{
  update, ℕ, suc, ◌-◌, ◌<◌, ◌≡◌, ℤ, pos, negsuc, eq_ℤ, Bool, true, false, if◌then◌else◌,
}

-- The readers that hold `pthread_rwlock_t`, and whether a writer does.
pub record RwLock : Type 0 where
  pub readers : ℕ
  pub writer : Bool

-- `pthread_rwlock_unlock` gives up the writer's hold, if there is a writer, or one of a reader.
unfoldable pub unlocked : RwLock → RwLock
unlocked l = if l.writer then record l { writer = false } else record l { readers = l.readers - 1 }

-- `RW_Thread_Mutex`, with what has become of its lock.
pub record RwThreadMutex : Type 0 where
  pub is_init : Bool
  pub is_destroy : Bool

abbrev pub constructed : RwThreadMutex
constructed = record { is_init = false; is_destroy = false }

-- The results of `pthread_rwlock_init` and `pthread_rwlock_destroy`; the second component is
-- whether the call is made.
unfoldable pub init : ℤ → RwThreadMutex → ℤ × Bool × RwThreadMutex
init ret m =
    if m.is_init
    then (pos 0, false, m)
    else if eq_ℤ ret (pos 0)
    then (ret, true, record m { is_init = true })
    else (ret, true, m)

unfoldable pub destroy : ℤ → RwThreadMutex → ℤ × Bool × RwThreadMutex
destroy ret m =
    if m.is_destroy
    then (pos 0, false, m)
    else if eq_ℤ ret (pos 0)
    then (ret, true, record m { is_destroy = true })
    else (ret, true, m)

-- Where a thread stands: without a guard, or in the scope of one of the two.
pub data Scope : Type 0 where
  outside : Scope
  reading : Scope
  writing : Scope

pub record System : Type 0 where
  pub lock : RwLock
  pub scope : ℕ → Scope

-- The constructors of the guards, whose `lock_read` and `lock_write` wait for the lock, and their
-- destructors, which call `unlock`. Neither call of pthread fails.
pub data Step (n : ℕ) (s : System) : System → Type 0 where
  guards_read :
      (i : ℕ)
      → i < n
      → s.scope i ≡ outside
      → s.lock.writer ≡ false
      → Step n s (record {
        lock = record s.lock { readers = suc s.lock.readers };
        scope = update s.scope i reading;
      })
  guards_write :
      (i : ℕ)
      → i < n
      → s.scope i ≡ outside
      → s.lock.writer ≡ false
      → s.lock.readers ≡ 0
      → Step n s
          (record { lock = record s.lock { writer = true }; scope = update s.scope i writing })
  leaves_read :
      (i : ℕ)
      → i < n
      → s.scope i ≡ reading
      → Step n s (record { lock = unlocked s.lock; scope = update s.scope i outside })
  leaves_write :
      (i : ℕ)
      → i < n
      → s.scope i ≡ writing
      → Step n s (record { lock = unlocked s.lock; scope = update s.scope i outside })

abbrev pub unguarded : System
unguarded = record { lock = record { readers = 0; writer = false }; scope = λ i. outside }

pub data Reach (n : ℕ) : System → Type 0 where
  start : Reach n unguarded
  later : {s t : System} → Reach n s → Step n s t → Reach n t

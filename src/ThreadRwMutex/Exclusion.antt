-- ===== src/ThreadRwMutex/Exclusion.antt =====
-- The guards of src/ThreadRWMutex.cpp keep a writer alone.
use cpplib.Prelude.{
  update, total, total-update, le-total, le-total_two, ℕ, zero, suc, ◌-◌, ◌<◌, ◌≡◌, refl, ap, sym,
  Bool, true, false, ◌==◌, arith, ◌⊎◌, inl, inr, Bool-cases, subst,
}
use cpplib.ThreadRwMutex.{
  RwLock, unlocked, Scope, outside, reading, writing, System, Step, guards_read, guards_write,
  leaves_read, leaves_write, unguarded, Reach, start, later,
}

is_reading : Scope → ℕ
is_reading outside = 0
is_reading reading = 1
is_reading writing = 0

is_writing : Scope → ℕ
is_writing outside = 0
is_writing reading = 0
is_writing writing = 1

abbrev number : Bool → ℕ
number false = 0
number true = 1

-- The lock counts the scopes, and has no reader beside a writer.
record IsCounted (n : ℕ) (s : System) : Type 0 where
  pub readers : s.lock.readers ≡ total is_reading n s.scope
  pub writers : number s.lock.writer ≡ total is_writing n s.scope
  pub apart : (s.lock.writer ≡ false) ⊎ (s.lock.readers ≡ 0)

none_counted : (n : ℕ) (w : Scope → ℕ) → w outside ≡ 0 → 0 ≡ total w n (λ i. outside)
unfolding total
none_counted zero w h = refl
none_counted (suc n) w h = omega (arith, h, none_counted n w h)

start-IsCounted : (n : ℕ) → IsCounted n unguarded
unfolding total is_reading is_writing
start-IsCounted n = record {
  readers = none_counted n is_reading refl;
  writers = none_counted n is_writing refl;
  apart = inl refl;
}

unlocked-read : (l : RwLock) → l.writer ≡ false → unlocked l ≡ record l { readers = l.readers - 1 }
unfolding unlocked
unlocked-read l h = rw h refl

unlocked-write : (l : RwLock) → l.writer ≡ true → unlocked l ≡ record l { writer = false }
unfolding unlocked
unlocked-write l h = rw h refl

writer_holds :
    (n i : ℕ) (s : System) → i < n → s.scope i ≡ writing → IsCounted n s → s.lock.writer ≡ true
unfolding is_writing
writer_holds n i s lt at c = elim (Bool-cases s.lock.writer) [
  | inl held ↦ held
  | inr free ↦
      let one : is_writing (s.scope i) ≡ 1 = ap is_writing at in
      let zero_held : number s.lock.writer ≡ 0 = ap number free in
      absurd (omega (arith, one, zero_held, c.writers, le-total is_writing n i s.scope lt))
]

no_reader : (s : System) {n : ℕ} → IsCounted n s → s.lock.writer ≡ true → s.lock.readers ≡ 0
no_reader s c held = elim c.apart [ inl free ↦ absurd cc | inr none_read ↦ none_read ]

reader_free :
    (n i : ℕ) (s : System) → i < n → s.scope i ≡ reading → IsCounted n s → s.lock.writer ≡ false
unfolding is_reading
reader_free n i s lt at c = elim c.apart [
  | inl free ↦ free
  | inr none_read ↦
      let one : is_reading (s.scope i) ≡ 1 = ap is_reading at in
      absurd (omega (arith, one, none_read, c.readers, le-total is_reading n i s.scope lt))
]

beside_writer :
    (n i j : ℕ) (s : System)
    → i < n
    → j < n
    → (i == j) ≡ false
    → s.scope i ≡ writing
    → IsCounted n s
    → s.lock.writer ≡ true
    → s.lock.readers ≡ 0
    → (p : Scope) → s.scope j ≡ p
    → s.scope j ≡ outside
unfolding is_reading is_writing
beside_writer n i j s lt lt' ne at c held none_read outside e = e
beside_writer n i j s lt lt' ne at c held none_read reading e =
    let one : is_reading (s.scope j) ≡ 1 = ap is_reading e in
    absurd (omega (arith, one, none_read, c.readers, le-total is_reading n j s.scope lt'))
beside_writer n i j s lt lt' ne at c held none_read writing e =
    let one : is_writing (s.scope i) ≡ 1 = ap is_writing at in
    let two : is_writing (s.scope j) ≡ 1 = ap is_writing e in
    let one_held : number s.lock.writer ≡ 1 = ap number held in
    absurd (
      omega (arith, one, two, one_held, c.writers, le-total_two is_writing n i j s.scope lt lt' ne))

leave_read :
    (n i : ℕ) (s : System)
    → i < n
    → s.scope i ≡ reading
    → IsCounted n s
    → IsCounted n (record { lock = unlocked s.lock; scope = update s.scope i outside })
unfolding is_reading is_writing
leave_read n i s lt at c =
    let free = reader_free n i s lt at c in
    let r = total-update is_reading n i s.scope outside lt in
    let w = total-update is_writing n i s.scope outside lt in
    let was_r : is_reading (s.scope i) ≡ 1 = ap is_reading at in
    let was_w : is_writing (s.scope i) ≡ 0 = ap is_writing at in
    subst (λ l. IsCounted n (record { lock = l; scope = update s.scope i outside }))
      (sym (unlocked-read s.lock free))
      (record {
        readers = omega (arith, r, was_r, c.readers);
        writers = omega (arith, w, was_w, c.writers);
        apart = inl free;
      })

leave_write :
    (n i : ℕ) (s : System)
    → i < n
    → s.scope i ≡ writing
    → IsCounted n s
    → IsCounted n (record { lock = unlocked s.lock; scope = update s.scope i outside })
unfolding is_reading is_writing
leave_write n i s lt at c =
    let held = writer_holds n i s lt at c in
    let one_held : number s.lock.writer ≡ 1 = ap number held in
    let r = total-update is_reading n i s.scope outside lt in
    let w = total-update is_writing n i s.scope outside lt in
    let was_r : is_reading (s.scope i) ≡ 0 = ap is_reading at in
    let was_w : is_writing (s.scope i) ≡ 1 = ap is_writing at in
    subst (λ l. IsCounted n (record { lock = l; scope = update s.scope i outside }))
      (sym (unlocked-write s.lock held))
      (record {
        readers = omega (arith, r, was_r, c.readers);
        writers = omega (arith, w, was_w, c.writers, one_held);
        apart = inl refl;
      })

Step-IsCounted : (n : ℕ) (s t : System) → Step n s t → IsCounted n s → IsCounted n t
unfolding is_reading is_writing
Step-IsCounted n s t (guards_read i lt at free) c =
    let r = total-update is_reading n i s.scope reading lt in
    let w = total-update is_writing n i s.scope reading lt in
    let was_r : is_reading (s.scope i) ≡ 0 = ap is_reading at in
    let was_w : is_writing (s.scope i) ≡ 0 = ap is_writing at in
    record {
      readers = omega (arith, r, was_r, c.readers);
      writers = omega (arith, w, was_w, c.writers);
      apart = inl free;
    }
Step-IsCounted n s t (guards_write i lt at free alone) c =
    let r = total-update is_reading n i s.scope writing lt in
    let w = total-update is_writing n i s.scope writing lt in
    let was_r : is_reading (s.scope i) ≡ 0 = ap is_reading at in
    let was_w : is_writing (s.scope i) ≡ 0 = ap is_writing at in
    let none_writes : number s.lock.writer ≡ 0 = ap number free in
    record {
      readers = omega (arith, r, was_r, c.readers);
      writers = omega (arith, w, was_w, c.writers, none_writes);
      apart = inr alone;
    }
Step-IsCounted n s t (leaves_read i lt at) c = leave_read n i s lt at c
Step-IsCounted n s t (leaves_write i lt at) c = leave_write n i s lt at c

Reach-IsCounted : (n : ℕ) (s : System) → Reach n s → IsCounted n s
Reach-IsCounted n s start = start-IsCounted n
Reach-IsCounted n s (later {s = before} r step) =
    Step-IsCounted n before s step (Reach-IsCounted n before r)

-- In every interleaving of any number of threads that guard the lock to read or to write, where
-- no call of pthread fails: while a thread is in the scope of a guard that writes, no other thread
-- is in a scope, the lock has its writer and no reader; and it counts all scopes that read.
pub writer_alone :
    (n i j : ℕ) (s : System)
    → Reach n s
    → i < n
    → j < n
    → (i == j) ≡ false
    → s.scope i ≡ writing
    → (s.scope j ≡ outside) × (s.lock.writer ≡ true) × (s.lock.readers ≡ 0)
writer_alone n i j s r lt lt' ne at =
    let c = Reach-IsCounted n s r in
    let held = writer_holds n i s lt at c in
    let none_read = no_reader s c held in
    (beside_writer n i j s lt lt' ne at c held none_read (s.scope j) refl, held, none_read)

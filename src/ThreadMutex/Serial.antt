-- ===== src/ThreadMutex/Serial.antt =====
-- The guard of src/ThreadMutex.h makes turns of the accesses of threads.
use cpplib.Prelude.{
  update, update-cases, ℕ, pos, none, some, [], ◌∷◌, ◌≡◌, ◌≢◌, refl, sym, ◌∙◌, ap, ◌==◌, ==_iff,
  true, inl, inr,
}
use cpplib.ThreadMutex.{
  Next, goes_on, waits, returns, Access, Place, outside, locking, inside, blocked, wake, Signal,
  Woken, unheard, lost, first, all, Turns, System, after, Step, calls, locks, accesses, ends,
  initial, Reach, start, later,
}

-- The object after turns, each by one thread from its start to its end with no other between.
abbrev pub IsReplay : {S P R : Type 0} → (P → S → S × Next P R) → S → Turns P R → S → Type 0
IsReplay turn origin [] s = s ≡ origin
IsReplay {S} turn origin ((i, p, next) ∷ log) s =
    (before : S) × IsReplay turn origin log before × (turn p before ≡ (s, next))

-- A turn is its first access, and what follows by itself.
abbrev pub rest_of : {S P R : Type 0} → (P → S → S × Next P R) → S → Next P R → S × Next P R
rest_of turn s (goes_on q) = turn q s
rest_of turn s (waits k) = (s, waits k)
rest_of turn s (returns r) = (s, returns r)

module _ {P : Type 0} where
  wake-inside : (x : Place P) {p q : P} → wake x ≡ inside p q → x ≡ inside p q
  wake-inside outside e = e
  wake-inside (locking p) e = e
  wake-inside (inside p q) e = e
  wake-inside (blocked k) e = absurd cc

  -- A wake-up puts nobody inside.
  Woken-inside :
      {place place' : ℕ → Place P} {c : Signal} {p q : P} (j : ℕ)
      → Woken place c place'
      → place' j ≡ inside p q
      → place j ≡ inside p q
  Woken-inside j unheard e = e
  Woken-inside j (lost h) e = e
  Woken-inside {place} j (first i {k} at) e =
      elim (update-cases place i j (locking (k (pos 0))) _ e) [
        | inl (same, x) ↦ absurd cc
        | inr (other, x) ↦ x
      ]
  Woken-inside {place} j all e = wake-inside (place j) e

module _ {S P R : Type 0} (access : P → S → Access S P R) (IsMethod : P → Type 0)
    (turn : P → S → S × Next P R)
    (unrolls : (p : P) (s : S) → turn p s ≡ rest_of turn (access p s).object (access p s).next)
    (object : S) where
  pub record IsSerial (s : System S P R) : Type 0 where
    pub alone : (j : ℕ) (p q : P) → s.place j ≡ inside p q → s.mutex ≡ some j
    pub free : s.mutex ≡ none → IsReplay turn object s.log s.object
    pub held :
        (j : ℕ) (p q : P)
        → s.place j ≡ inside p q
        → (before : S) × IsReplay turn object s.log before × (turn p before ≡ turn q s.object)

  -- A change at a thread that is not inside before or behind it.
  moved :
      (s : System S P R) (i : ℕ) (x : Place P)
      → ((p q : P) → x ≢ inside p q)
      → IsSerial s
      → IsSerial (record s { place = update s.place i x })
  moved s i x out v = record {
    alone = λ j p q e. elim (update-cases s.place i j x _ e) [
      | inl (same, y) ↦ absurd (out p q y)
      | inr (other, y) ↦ v.alone j p q y
    ];
    free = v.free;
    held = λ j p q e. elim (update-cases s.place i j x _ e) [
      | inl (same, y) ↦ absurd (out p q y)
      | inr (other, y) ↦ v.held j p q y
    ];
  }

  -- Two threads inside are one.
  pub alone_two :
      (s : System S P R) (i j : ℕ) {p q p' q' : P}
      → IsSerial s
      → s.place i ≡ inside p q
      → s.place j ≡ inside p' q'
      → i ≡ j
  alone_two s i j {p} {q} {p'} {q'} v e e' = cc (v.alone i p q e, v.alone j p' q' e')

  locked :
      (s : System S P R) (i : ℕ) (p : P)
      → s.mutex ≡ none
      → IsSerial s
      → IsSerial (record s { mutex = some i; place = update s.place i (inside p p) })
  locked s i p open_mutex v = record {
    alone = λ j p' q e. elim (update-cases s.place i j (inside p p) _ e) [
      | inl (same, y) ↦ ap (λ (k : ℕ). some k) (sym same)
      | inr (other, y) ↦ absurd (cc (v.alone j p' q y))
    ];
    free = λ e. absurd cc;
    held = λ j p' q e. elim (update-cases s.place i j (inside p p) _ e) [
      | inl (same, y) ↦ (s.object, v.free open_mutex, cc)
      | inr (other, y) ↦ absurd (cc (v.alone j p' q y))
    ];
  }

  -- The end of a turn, in a wait or a return.
  ended :
      (s : System S P R) (i : ℕ) (p q : P) (place : ℕ → Place P) (x : Place P) (after_object : S)
      (next : Next P R)
      → s.place i ≡ inside p q
      → ((j : ℕ) (p' q' : P) → place j ≡ inside p' q' → s.place j ≡ inside p' q')
      → ((p' q' : P) → x ≢ inside p' q')
      → turn q s.object ≡ (after_object, next)
      → IsSerial s
      → IsSerial (record {
        mutex = none;
        object = after_object;
        place = update place i x;
        log = (i, p, next) ∷ s.log;
      })
  ended s i p q place x after_object next at kept out turned v =
      let nobody : (j : ℕ) (p' q' : P) → update place i x j ≡ inside p' q' → ⊥ = λ j p' q' e.
        elim (update-cases place i j x _ e) [
          | inl (same, y) ↦ out p' q' y
          | inr (other, y) ↦
              let one : i ≡ j = alone_two s i j v at (kept j p' q' y) in
              let own : (j == i) ≡ true = (==_iff j i).1 (sym one) in cc
        ] in
      record {
        alone = λ j p' q' e. absurd (nobody j p' q' e);
        free = λ e. let (before, replay, same) = v.held i p q at in (before, replay, same ∙ turned);
        held = λ j p' q' e. absurd (nobody j p' q' e);
      }

  -- An access within a turn.
  went_on :
      (s : System S P R) (i : ℕ) (p q q' : P) (place : ℕ → Place P) (after_object : S)
      → s.place i ≡ inside p q
      → ((j : ℕ) (p' q'' : P) → place j ≡ inside p' q'' → s.place j ≡ inside p' q'')
      → turn q s.object ≡ turn q' after_object
      → IsSerial s
      → IsSerial (record s { object = after_object; place = update place i (inside p q') })
  went_on s i p q q' place after_object at kept turned v = record {
    alone = λ j p' q'' e. elim (update-cases place i j (inside p q') _ e) [
      | inl (same, y) ↦ v.alone i p q at ∙ ap (λ (k : ℕ). some k) (sym same)
      | inr (other, y) ↦ v.alone j p' q'' (kept j p' q'' y)
    ];
    free = λ e. absurd (cc (v.alone i p q at));
    held = λ j p' q'' e. elim (update-cases place i j (inside p q') _ e) [
      | inl (same, y) ↦
          let (before, replay, turns) = v.held i p q at in (before, replay, cc (turns, turned))
      | inr (other, y) ↦
          let one : i ≡ j = alone_two s i j v at (kept j p' q'' y) in
          let own : (j == i) ≡ true = (==_iff j i).1 (sym one) in absurd cc
    ];
  }

  accessed :
      (s : System S P R) (i : ℕ) (p q : P) (place : ℕ → Place P) (after_object : S)
      (next : Next P R)
      → s.place i ≡ inside p q
      → ((j : ℕ) (p' q' : P) → place j ≡ inside p' q' → s.place j ≡ inside p' q')
      → turn q s.object ≡ rest_of turn after_object next
      → IsSerial s
      → IsSerial (after access IsMethod i p after_object next (record s { place = place }))
  accessed s i p q place after_object (goes_on q') at kept turned v =
      went_on s i p q q' place after_object at kept turned v
  accessed s i p q place after_object (waits k) at kept turned v =
      ended s i p q place (blocked k) after_object (waits k) at kept (λ p' q' e. cc) turned v
  accessed s i p q place after_object (returns r) at kept turned v =
      ended s i p q place outside after_object (returns r) at kept (λ p' q' e. cc) turned v

  Step-IsSerial : {s t : System S P R} → Step access IsMethod s t → IsSerial s → IsSerial t
  Step-IsSerial {s} (calls i p at method) v = moved s i (locking p) (λ p' q e. cc) v
  Step-IsSerial {s} (locks i {p} at open_mutex) v = locked s i p open_mutex v
  Step-IsSerial {s} (accesses i {p} {q} {place} at woken) v =
      accessed s i p q place (access q s.object).object (access q s.object).next at
        (λ j p' q' e. Woken-inside j woken e) (unrolls q s.object) v
  Step-IsSerial {s} (ends i code {k} at) v = moved s i (locking (k code)) (λ p' q e. cc) v

  initial-IsSerial : IsSerial (initial access IsMethod object)
  initial-IsSerial = record {
    alone = λ j p q e. absurd cc;
    free = λ e. refl;
    held = λ j p q e. absurd cc;
  }

  pub Reach-IsSerial : {s : System S P R} → Reach access IsMethod object s → IsSerial s
  Reach-IsSerial start = initial-IsSerial
  Reach-IsSerial (later r step) = Step-IsSerial step (Reach-IsSerial r)

  -- In every interleaving of the accesses of any number of threads, with waits that are woken or
  -- end by themselves: no two threads are in the scope of a guard at a time, and while no thread
  -- is, the object is what whole turns make of it, one after another in the order in which they
  -- took the mutex, each with the end that its thread saw.
  pub turns_serial :
      {s : System S P R} (i j : ℕ) (p q p' q' : P)
      → Reach access IsMethod object s
      → (s.place i ≡ inside p q → s.place j ≡ inside p' q' → i ≡ j)
        × (s.mutex ≡ none → IsReplay turn object s.log s.object)
  turns_serial {s} i j p q p' q' r = let v = Reach-IsSerial r in (alone_two s i j v, v.free)

-- ===== src/ThreadMutex/Waking.antt =====
-- Threads of src/ThreadMutex.h that wait on a condition of src/ThreadCond.cpp: they wait only while it does
-- not hold, or while the thread that made it hold is about to wake them.
use cpplib.Prelude.{
  update, update-cases, update-own, update-kept, ℕ, ℤ, pos, none, ◌≡◌, ◌≢◌, ◌⊎◌, inl, inr, refl,
  sym, ◌∙◌, ap, subst,
}
use cpplib.ThreadMutex.{
  Access, Next, goes_on, waits, returns, Place, outside, locking, inside, blocked, wake, Signal,
  broadcast, Woken, unheard, lost, first, all, System, after, Step, calls, locks, accesses, ends,
  Reach, start, later,
}
use cpplib.ThreadMutex.Serial.{rest_of, IsSerial, alone_two, Reach-IsSerial}

-- `IsCalm` is what a thread waits on the end of, and `IsTelling` the places ahead of a broadcast.
-- An access that ends the calm leads to such a place, and one that leads to a wait leaves the calm.
abbrev pub Keeps : {S P R : Type 0} → (S → Type 0) → (P → Type 0) → S → Access S P R → Type 0
Keeps {S} {P} {R} IsCalm IsTelling s a =
    (IsCalm s → IsCalm a.object ⊎ ((q : P) × (a.next ≡ goes_on q) × IsTelling q))
    × ((k : ℤ → P) → a.next ≡ waits k → IsCalm a.object)

module _ {P : Type 0} where
  wake-awake : (x : Place P) (k : ℤ → P) → wake x ≢ blocked k
  wake-awake outside k e = absurd cc
  wake-awake (locking p) k e = absurd cc
  wake-awake (inside p q) k e = absurd cc
  wake-awake (blocked k') k e = absurd cc

  -- Who waits behind a wake-up did so before.
  Woken-blocked :
      {place place' : ℕ → Place P} {c : Signal} (j : ℕ) (k : ℤ → P)
      → Woken place c place'
      → place' j ≡ blocked k
      → (place j ≡ blocked k) × (c ≢ broadcast)
  Woken-blocked j k unheard e = (e, λ f. cc)
  Woken-blocked j k (lost h) e = (e, λ f. cc)
  Woken-blocked {place} j k (first i {k = other} at) e =
      elim (update-cases place i j (locking (other (pos 0))) _ e) [
        | inl (same, x) ↦ absurd cc
        | inr (elsewhere, x) ↦ (x, λ f. cc)
      ]
  Woken-blocked {place} j k all e = absurd (wake-awake (place j) k e)

module _ {S P R : Type 0} (access : P → S → Access S P R) (IsMethod : P → Type 0)
    (turn : P → S → S × Next P R)
    (unrolls : (p : P) (s : S) → turn p s ≡ rest_of turn (access p s).object (access p s).next)
    (IsCalm : S → Type 0) (IsTelling : P → Type 0)
    (keeps : (p : P) (s : S) → Keeps IsCalm IsTelling s (access p s))
    (tells : (p : P) (s : S) → IsTelling p → (access p s).signal ≡ broadcast) (origin : S) where
  IsTold : System S P R → Type 0
  IsTold s = (i : ℕ) × (p : P) × (q : P) × (s.place i ≡ inside p q) × IsTelling q

  IsRoused : System S P R → Type 0
  IsRoused s = (j : ℕ) (k : ℤ → P) → s.place j ≡ blocked k → IsCalm s.object ⊎ IsTold s

  -- A thread outside the mutex moves.
  moved :
      (s : System S P R) (i : ℕ) (x : Place P)
      → ((p q : P) → s.place i ≢ inside p q)
      → ((k : ℤ → P) → x ≢ blocked k)
      → IsRoused s
      → IsRoused (record s { place = update s.place i x })
  unfolding IsRoused IsTold
  moved s i x out awake v j k e = elim (update-cases s.place i j x _ e) [
    | inl (same, y) ↦ absurd (awake k y)
    | inr (other, y) ↦ elim (v j k y) [
      | inl calm ↦ inl calm
      | inr (i', p, q, at, telling) ↦
          inr (i', p, q, update-kept s.place i i' x refl at (out p q), telling)
    ]
  ]

  -- Behind an access, with `before` what a waiting thread knew.
  behind :
      (s : System S P R) (i : ℕ) (p : P) (place : ℕ → Place P) (object : S) (c : Signal)
      (next : Next P R)
      → Keeps IsCalm IsTelling s.object (record { object = object; signal = c; next = next })
      → ((j : ℕ) (k : ℤ → P) → place j ≡ blocked k → IsCalm s.object)
      → IsRoused (after access IsMethod i p object next (record s { place = place }))
  unfolding IsRoused IsTold
  behind s i p place object c (goes_on q) keep before j k e =
      elim (update-cases place i j (inside p q) _ e) [
        | inl (same, y) ↦ absurd cc
        | inr (other, y) ↦ elim (keep.0 (before j k y)) [
          | inl calm ↦ inl calm
          | inr (q', here, telling) ↦
              let own : q' ≡ q = cc here in
              inr (i, p, q, update-own place i (inside p q), subst IsTelling own telling)
        ]
      ]
  behind s i p place object c (waits k') keep before j k e = inl (keep.1 k' refl)
  behind s i p place object c (returns r) keep before j k e =
      elim (update-cases place i j outside _ e) [
        | inl (same, y) ↦ absurd cc
        | inr (other, y) ↦ elim (keep.0 (before j k y)) [
          | inl calm ↦ inl calm
          | inr (q', here, telling) ↦ absurd cc
        ]
      ]

  accessed :
      (s : System S P R) (i : ℕ) (p q : P) (place : ℕ → Place P)
      → IsSerial access IsMethod turn unrolls origin s
      → s.place i ≡ inside p q
      → Woken s.place (access q s.object).signal place
      → IsRoused s
      → (j : ℕ) (k : ℤ → P) → place j ≡ blocked k
      → IsCalm s.object
  unfolding IsRoused IsTold
  accessed s i p q place one at woken v j k e =
      let (waited, not_all) = Woken-blocked j k woken e in
      elim (v j k waited) [
        | inl calm ↦ calm
        | inr (i', p', q', at', telling) ↦
            let own : i ≡ i' = alone_two access IsMethod turn unrolls origin s i i' one at at' in
            let same : inside p q ≡ inside p' q' = sym at ∙ ap (λ l. s.place l) own ∙ at' in
            let here : q' ≡ q = cc same in
            absurd (not_all (tells q s.object (subst IsTelling here telling)))
      ]

  Step-IsRoused :
      {s t : System S P R}
      → Step access IsMethod s t
      → IsSerial access IsMethod turn unrolls origin s
      → IsRoused s
      → IsRoused t
  unfolding IsRoused IsTold
  Step-IsRoused {s} (calls i p at method) one v = moved s i (locking p) (λ p' q e. cc) (λ k e. cc) v
  Step-IsRoused {s} (locks i {p} at open_mutex) one v =
      moved s i (inside p p) (λ p' q e. cc) (λ k e. cc) v
  Step-IsRoused {s} (accesses i {p} {q} {place} at woken) one v =
      behind s i p place (access q s.object).object (access q s.object).signal
        (access q s.object).next (keeps q s.object) (accessed s i p q place one at woken v)
  Step-IsRoused {s} (ends i code {k} at) one v =
      moved s i (locking (k code)) (λ p' q e. cc) (λ k' e. cc) v

  Reach-IsRoused : {s : System S P R} → Reach access IsMethod origin s → IsRoused s
  unfolding IsRoused
  Reach-IsRoused start = λ j k e. absurd cc
  Reach-IsRoused (later r step) =
      Step-IsRoused step (Reach-IsSerial access IsMethod turn unrolls origin r) (Reach-IsRoused r)

  -- In every interleaving, whenever the mutex is free, a thread waits only while there is calm.
  pub waiting_lem :
      {s : System S P R} (j : ℕ) (k : ℤ → P)
      → Reach access IsMethod origin s
      → s.mutex ≡ none
      → s.place j ≡ blocked k
      → IsCalm s.object
  unfolding IsRoused IsTold
  waiting_lem {s} j k r open_mutex e = elim (Reach-IsRoused r j k e) [
    | inl calm ↦ calm
    | inr (i, p, q, at, telling) ↦
        absurd
          (cc (open_mutex, (Reach-IsSerial access IsMethod turn unrolls origin r).alone i p q at))
  ]

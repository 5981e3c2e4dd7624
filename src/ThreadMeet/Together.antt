-- ===== src/ThreadMeet/Together.antt =====
-- Threads that meet at a point of src/ThreadMeet.cpp with no time limit, in any interleaving of
-- their accesses under its mutex.
use cpplib.Prelude.{
  update, update-cases, ℕ, suc, ◌+◌, ◌-◌, ◌<◌, ℤ, All, length, ◌≡◌, ◌≢◌, ◌⊎◌, inl, inr, refl, none,
  some, arith,
}
use cpplib.ThreadMeet
use cpplib.ThreadMeet.{ThreadMeet, Action, meet}
use cpplib.ThreadMeet.Shared.{
  Pc, meeting, telling, woken, leaving, IsMeet, next_of, access, turn, unrolls, Meeting, NoEnd,
  NoEnds, Waited,
}
use cpplib.ThreadMutex.{
  Signal, quiet, broadcast, Place, locking, inside, blocked, Woken, unheard, lost, first, all,
  after, Step, calls, locks, accesses, ends, Reach, start, later,
}
use cpplib.ThreadMutex.Waking.{Keeps, waiting_lem}

-- Before the last of `suc n` threads has come.
record IsEarly (n : ℕ) (s : Meeting) : Type 0 where
  some_left : 0 < s.object.count
  counted : s.object.count + length s.log ≡ suc n
  waited : All Waited s.log
  only_meet : (j : ℕ) (p q : Pc) → s.place j ≡ inside p q → q ≡ meeting
  only_come : (j : ℕ) (p : Pc) → s.place j ≡ locking p → p ≡ meeting

meet_cases :
    (m : ThreadMeet)
    → ((m.count ≡ 0) × (meet 0 0 m ≡ (m, Action.passes)))
      ⊎ ((m.count ≡ 1) × (meet 0 0 m ≡ (record m { count = 0 }, Action.wakes_all)))
      ⊎ ((1 < m.count) × (meet 0 0 m ≡ (record m { count = m.count - 1 }, Action.waits)))
unfolding meet
meet_cases m = ground arith

quiet-same :
    {place place' : ℕ → Place Pc} {c : Signal} → Woken place c place' → c ≡ quiet → place' ≡ place
quiet-same unheard e = refl
quiet-same (lost h) e = absurd cc
quiet-same (first j at) e = absurd cc
quiet-same all e = absurd cc

meet_only : (p : Pc) → IsMeet p → p ≡ meeting
meet_only meeting h = refl
meet_only telling h = absurd h
meet_only woken h = absurd h
meet_only leaving h = absurd h

module _ (n : ℕ) (s : Meeting) (v : IsEarly n s) where
  called-IsEarly :
      (i : ℕ) (p : Pc) → IsMeet p → IsEarly n (record s { place = update s.place i (locking p) })
  called-IsEarly i p h = record {
    some_left = v.some_left;
    counted = v.counted;
    waited = v.waited;
    only_meet = λ j p' q e. elim (update-cases s.place i j (locking p) _ e) [
      | inl (same, y) ↦ absurd cc
      | inr (other, y) ↦ v.only_meet j p' q y
    ];
    only_come = λ j p' e. elim (update-cases s.place i j (locking p) _ e) [
      | inl (same, y) ↦ let own = meet_only p h in cc
      | inr (other, y) ↦ v.only_come j p' y
    ];
  }

  locked-IsEarly :
      (i : ℕ) (p : Pc)
      → s.place i ≡ locking p
      → IsEarly n (record s { mutex = some i; place = update s.place i (inside p p) })
  locked-IsEarly i p at = record {
    some_left = v.some_left;
    counted = v.counted;
    waited = v.waited;
    only_meet = λ j p' q e. elim (update-cases s.place i j (inside p p) _ e) [
      | inl (same, y) ↦ let own = v.only_come i p at in cc
      | inr (other, y) ↦ v.only_meet j p' q y
    ];
    only_come = λ j p' e. elim (update-cases s.place i j (inside p p) _ e) [
      | inl (same, y) ↦ absurd cc
      | inr (other, y) ↦ v.only_come j p' y
    ];
  }

  -- A thread that comes takes one off the count and waits; the last one goes on to wake all.
  met-IsEarly :
      (i : ℕ) (p : Pc)
      → s.place i ≡ inside p meeting
      → let next =
          after access IsMeet i p (meet 0 0 s.object).0 (next_of (meet 0 0 s.object).1) s in
        IsEarly n next ⊎ (next.object.count ≡ 0)
  met-IsEarly i p at = elim (meet_cases s.object) [
    | inl (none_left, e) ↦ absurd (omega (arith, none_left, v.some_left))
    | inr (inl (one_left, e)) ↦ rw e (inr refl)
    | inr (inr (more_left, e)) ↦ rw e (
        inl (record {
          some_left = omega (arith, more_left);
          counted = omega (arith, more_left, v.counted);
          waited = (tt, v.waited);
          only_meet = λ j p' q f. elim (update-cases s.place i j (blocked (λ code. woken)) _ f) [
            | inl (same, y) ↦ absurd cc
            | inr (other, y) ↦ v.only_meet j p' q y
          ];
          only_come = λ j p' f. elim (update-cases s.place i j (blocked (λ code. woken)) _ f) [
            | inl (same, y) ↦ absurd cc
            | inr (other, y) ↦ v.only_come j p' y
          ];
        }))
  ]

accessed-IsEarly :
    (n : ℕ) (s : Meeting) (i : ℕ) (p q : Pc) (place : ℕ → Place Pc)
    → IsEarly n s
    → s.place i ≡ inside p q
    → Woken s.place (access q s.object).signal place
    → let next =
        after access IsMeet i p
          (access q s.object).object
          (access q s.object).next
          (record s { place = place }) in
      IsEarly n next ⊎ (next.object.count ≡ 0)
unfolding access
accessed-IsEarly n s i p meeting place v at woke =
    rw (quiet-same woke refl) (met-IsEarly n s v i p at)
accessed-IsEarly n s i p telling place v at woke = absurd (cc (v.only_meet i p telling at))
accessed-IsEarly n s i p woken place v at woke = absurd (cc (v.only_meet i p woken at))
accessed-IsEarly n s i p leaving place v at woke = absurd (cc (v.only_meet i p leaving at))

step-IsEarly :
    (n : ℕ) {s t : Meeting} (step : Step access IsMeet s t)
    → NoEnd step
    → IsEarly n s
    → IsEarly n t ⊎ (t.object.count ≡ 0)
step-IsEarly n {s} (calls i p at m) h v = inl (called-IsEarly n s v i p m)
step-IsEarly n {s} (locks i {p} at w) h v = inl (locked-IsEarly n s v i p at)
step-IsEarly n {s} (accesses i {p} {q} {place} at w) h v = accessed-IsEarly n s i p q place v at w
step-IsEarly n (ends i code at) h v = absurd h

accessed-count :
    (s : Meeting) (i : ℕ) (p q : Pc) (place : ℕ → Place Pc)
    → s.object.count ≡ 0
    → (after access IsMeet i p
        (access q s.object).object
        (access q s.object).next
        (record s { place = place })).object.count
      ≡ 0
unfolding access
accessed-count s i p meeting place h = elim (meet_cases s.object) [
  | inl (none_left, e) ↦ rw e h
  | inr (inl (one_left, e)) ↦ absurd (omega (arith, one_left, h))
  | inr (inr (more_left, e)) ↦ absurd (omega (arith, more_left, h))
]
accessed-count s i p telling place h = h
accessed-count s i p woken place h = h
accessed-count s i p leaving place h = h

step-count : {s t : Meeting} → Step access IsMeet s t → s.object.count ≡ 0 → t.object.count ≡ 0
step-count (calls i p at m) h = h
step-count (locks i at w) h = h
step-count {s} (accesses i {p} {q} {place} at w) h = accessed-count s i p q place h
step-count (ends i code at) h = h

Reach-IsEarly :
    (n memory : ℕ) {s : Meeting} (r : Reach access IsMeet (ThreadMeet.init (suc n) memory) s)
    → NoEnds r
    → IsEarly n s ⊎ (s.object.count ≡ 0)
unfolding ThreadMeet.init
Reach-IsEarly n memory start h = inl (record {
  some_left = grind arith;
  counted = grind arith;
  waited = tt;
  only_meet = λ j p q e. absurd cc;
  only_come = λ j p e. absurd cc;
})
Reach-IsEarly n memory (later r step) (h, h') = elim (Reach-IsEarly n memory r h) [
  | inl v ↦ step-IsEarly n step h' v
  | inr v ↦ inr (step-count step v)
]

-- A thread waits as long as the count is above 0.
IsOpen : ThreadMeet → Type 0
IsOpen m = 0 < m.count

IsTelling : Pc → Type 0
IsTelling p = p ≡ telling

tells : (p : Pc) (m : ThreadMeet) → IsTelling p → (access p m).signal ≡ broadcast
unfolding IsTelling access
tells p m e = rw e refl

access-Keeps : (p : Pc) (m : ThreadMeet) → Keeps IsOpen IsTelling m (access p m)
unfolding access IsOpen IsTelling
access-Keeps meeting m = elim (meet_cases m) [
  | inl (none_left, e) ↦ rw e (λ left. absurd (omega (arith, left, none_left)), λ k f. absurd cc)
  | inr (inl (one_left, e)) ↦ rw e (λ left. inr (telling, refl, refl), λ k f. absurd cc)
  | inr (inr (more_left, e)) ↦
      rw e (λ left. inl (omega (arith, more_left)), λ k f. omega (arith, more_left))
]
access-Keeps telling m = (λ left. inl left, λ k e. absurd cc)
access-Keeps woken m = (λ left. inl left, λ k e. absurd cc)
access-Keeps leaving m = (λ left. inl left, λ k e. absurd cc)

none_waits :
    (m : ThreadMeet) (s : Meeting) (j : ℕ) (k : ℤ → Pc)
    → Reach access IsMeet m s
    → s.mutex ≡ none
    → s.place j ≡ blocked k
    → 0 < s.object.count
unfolding IsOpen
none_waits m s j k r open_mutex e =
    waiting_lem access IsMeet turn unrolls IsOpen IsTelling access-Keeps tells m j k r open_mutex e

-- Threads that meet with no time limit at a point for `suc n`, in any interleaving of their
-- accesses. Where no wait ends but by a broadcast, then while the count is above 0, every turn under
-- the mutex has ended in a wait, and the count is what is left of `suc n` behind one for each, so
-- that no thread has got past the point before the last one came. And once the count is 0, no
-- thread waits whenever the mutex is free, so that none is left behind.
pub meet_together :
    (n memory : ℕ) (s : Meeting) (r : Reach access IsMeet (ThreadMeet.init (suc n) memory) s)
    → (NoEnds r → 0 < s.object.count → (s.object.count + length s.log ≡ suc n) × All Waited s.log)
      × (s.object.count ≡ 0 → s.mutex ≡ none → (j : ℕ) (k : ℤ → Pc) → s.place j ≢ blocked k)
meet_together n memory s r = (
  λ no_ends left. elim (Reach-IsEarly n memory r no_ends) [
    | inl v ↦ (v.counted, v.waited)
    | inr h ↦ absurd (omega (arith, left, h))
  ],
  λ none_left open_mutex j k e.
      let left = none_waits _ s j k r open_mutex e in omega (arith, left, none_left),
)

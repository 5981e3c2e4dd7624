-- ===== src/ThreadMutex/Entries.antt =====
-- Where the threads of src/ThreadMutex.h take the mutex: at the start of a method or behind a wait.
use cpplib.Prelude.{update, update-cases, ℕ, ℤ, pos, All, ◌≡◌, inl, inr, refl, subst}
use cpplib.ThreadMutex.{
  Access, Next, goes_on, waits, returns, Place, outside, locking, inside, blocked, wake, Signal,
  Woken, unheard, lost, first, all, System, after, Step, calls, locks, accesses, ends, Reach, start,
  later,
}

-- Behind a wait, a thread takes the mutex at a place of `IsEntry`.
abbrev pub IsBack : {P R : Type 0} → (P → Type 0) → Next P R → Type 0
IsBack IsEntry (goes_on q) = Unit
IsBack IsEntry (waits k) = (code : ℤ) → IsEntry (k code)
IsBack IsEntry (returns r) = Unit

module _ {S P R : Type 0} (access : P → S → Access S P R) (IsMethod IsEntry : P → Type 0)
    (enters : (p : P) → IsMethod p → IsEntry p)
    (comes_back : (q : P) (s : S) → IsBack IsEntry (access q s).next) where
  -- A thread has entered, or will behind its wait.
  IsIn : Place P → Type 0
  IsIn outside = Unit
  IsIn (locking p) = IsEntry p
  IsIn (inside p q) = IsEntry p
  IsIn (blocked k) = (code : ℤ) → IsEntry (k code)

  abbrev pub Entered : ℕ × P × Next P R → Type 0
  Entered (i, p, next) = IsEntry p

  record IsEntered (s : System S P R) : Type 0 where
    places : (j : ℕ) → IsIn (s.place j)
    pub turns : All Entered s.log

  update-IsIn :
      (place : ℕ → Place P) (i : ℕ) (x : Place P)
      → ((j : ℕ) → IsIn (place j))
      → IsIn x
      → (j : ℕ) → IsIn (update place i x j)
  update-IsIn place i x v own j = elim (update-cases place i j x _ refl) [
    | inl (same, e) ↦ subst IsIn e own
    | inr (other, e) ↦ subst IsIn e (v j)
  ]

  wake-IsIn : (x : Place P) → IsIn x → IsIn (wake x)
  unfolding IsIn
  wake-IsIn outside v = tt
  wake-IsIn (locking p) v = v
  wake-IsIn (inside p q) v = v
  wake-IsIn (blocked k) v = v (pos 0)

  blocked-IsIn : (x : Place P) (k : ℤ → P) (code : ℤ) → IsIn x → x ≡ blocked k → IsEntry (k code)
  unfolding IsIn
  blocked-IsIn x k code v e = let w : IsIn (blocked k) = subst IsIn e v in w code

  Woken-IsIn :
      {place place' : ℕ → Place P} {c : Signal}
      → Woken place c place'
      → ((j : ℕ) → IsIn (place j))
      → (j : ℕ) → IsIn (place' j)
  unfolding IsIn
  Woken-IsIn unheard v = v
  Woken-IsIn (lost h) v = v
  Woken-IsIn {place} (first i {k} at) v =
      update-IsIn place i (locking (k (pos 0))) v (blocked-IsIn (place i) k (pos 0) (v i) at)
  Woken-IsIn {place} all v = λ j. wake-IsIn (place j) (v j)

  accessed :
      (i : ℕ) (p : P) (object : S) (next : Next P R) (s : System S P R)
      → IsEntry p
      → IsBack IsEntry next
      → IsEntered s
      → IsEntered (after access IsMethod i p object next s)
  unfolding IsIn
  accessed i p object (goes_on q) s own back v = record {
    places = update-IsIn s.place i (inside p q) v.places own;
    turns = v.turns;
  }
  accessed i p object (waits k) s own back v = record {
    places = update-IsIn s.place i (blocked k) v.places back;
    turns = (own, v.turns);
  }
  accessed i p object (returns r) s own back v = record {
    places = update-IsIn s.place i outside v.places tt;
    turns = (own, v.turns);
  }

  Step-IsEntered : {s t : System S P R} → Step access IsMethod s t → IsEntered s → IsEntered t
  unfolding IsIn
  Step-IsEntered {s} (calls i p at method) v = record {
    places = update-IsIn s.place i (locking p) v.places (enters p method);
    turns = v.turns;
  }
  Step-IsEntered {s} (locks i {p} at open_mutex) v = record {
    places = update-IsIn s.place i (inside p p) v.places (subst IsIn at (v.places i));
    turns = v.turns;
  }
  Step-IsEntered {s} (accesses i {p} {q} {place} at woken) v =
      accessed i p (access q s.object).object (access q s.object).next (record s { place = place })
        (subst IsIn at (v.places i)) (comes_back q s.object)
        (record { places = Woken-IsIn woken v.places; turns = v.turns })
  Step-IsEntered {s} (ends i code {k} at) v = record {
    places =
        update-IsIn s.place i (locking (k code)) v.places
          (blocked-IsIn (s.place i) k code (v.places i) at);
    turns = v.turns;
  }

  entered : {object : S} {s : System S P R} → Reach access IsMethod object s → IsEntered s
  unfolding IsIn
  entered start = record { places = λ j. tt; turns = tt }
  entered (later r step) = Step-IsEntered step (entered r)

  -- Every turn that has ended began at a place that a thread may take the mutex at.
  pub Reach-IsEntered :
      {object : S} {s : System S P R} → Reach access IsMethod object s → All Entered s.log
  Reach-IsEntered r = (entered r).turns

-- ===== src/TSingleton/Holds.antt =====
-- What holds at each place of `GetInstance` in src/TSingleton.h, and a step of one thread.
use cpplib.Prelude.{ℕ, suc, ◌≡◌, ◌≢◌, refl, sym, ◌∙◌, Option, none, some, ◌⊎◌, inl, inr}
use cpplib.TSingleton.{
  Memory, Pc, entering, locking, checking, making, unlocking, returning, returned, Move, sees,
  misses, locks, sees_again, misses_again, makes, unlocks, returns,
}

-- What holds while a thread stands at a place.
abbrev pub Holds : Memory → ℕ → Pc → Type 0
Holds m i entering = Unit
Holds m i locking = Unit
Holds m i checking = m.holder ≡ some i
Holds m i making = (m.holder ≡ some i) × (m.p_instance ≡ none)
Holds m i unlocking = (m.holder ≡ some i) × (m.p_instance ≡ some 0)
Holds m i returning = m.p_instance ≡ some 0
Holds m i (returned p) = (p ≡ some 0) × (m.p_instance ≡ some 0)

abbrev pub IsOne : Memory → Type 0
IsOne m =
    ((m.p_instance ≡ none) × (m.allocated ≡ 0)) ⊎ ((m.p_instance ≡ some 0) × (m.allocated ≡ 1))

-- What holds for a thread while another one moves.
locks-Holds :
    (i j : ℕ) (m : Memory) (q : Pc)
    → m.holder ≡ none
    → Holds m j q
    → Holds (record m { holder = some i }) j q
locks-Holds i j m entering e k = k
locks-Holds i j m locking e k = k
locks-Holds i j m checking e k = absurd cc
locks-Holds i j m making e k = absurd (let h = k.0 in cc)
locks-Holds i j m unlocking e k = absurd (let h = k.0 in cc)
locks-Holds i j m returning e k = k
locks-Holds i j m (returned p) e k = k

some_injective : (i j : ℕ) → ◌≡◌ {A = Option ℕ} (some i) (some j) → i ≡ j
some_injective i j e = cc

other_holder : (i j : ℕ) (m : Memory) → m.holder ≡ some i → m.holder ≡ some j → i ≢ j → ⊥
other_holder i j m h k ne = ne (some_injective i j (sym h ∙ k))

makes-Holds :
    (i j : ℕ) (m : Memory) (q : Pc)
    → m.holder ≡ some i
    → m.p_instance ≡ none
    → i ≢ j
    → Holds m j q
    → Holds (record m { p_instance = some m.allocated; allocated = suc m.allocated }) j q
makes-Holds i j m entering h e ne k = k
makes-Holds i j m locking h e ne k = k
makes-Holds i j m checking h e ne k = k
makes-Holds i j m making h e ne k = absurd (other_holder i j m h k.0 ne)
makes-Holds i j m unlocking h e ne k = absurd (other_holder i j m h k.0 ne)
makes-Holds i j m returning h e ne k = absurd cc
makes-Holds i j m (returned p) h e ne k = absurd (let there = k.1 in cc)

unlocks-Holds :
    (i j : ℕ) (m : Memory) (q : Pc)
    → m.holder ≡ some i
    → i ≢ j
    → Holds m j q
    → Holds (record m { holder = none }) j q
unlocks-Holds i j m entering h ne k = k
unlocks-Holds i j m locking h ne k = k
unlocks-Holds i j m checking h ne k = absurd (other_holder i j m h k ne)
unlocks-Holds i j m making h ne k = absurd (other_holder i j m h k.0 ne)
unlocks-Holds i j m unlocking h ne k = absurd (other_holder i j m h k.0 ne)
unlocks-Holds i j m returning h ne k = k
unlocks-Holds i j m (returned p) h ne k = k

pub Move-Holds_other :
    (i j : ℕ) (m m' : Memory) (p p' q : Pc)
    → Move i m p m' p'
    → Holds m i p
    → i ≢ j
    → Holds m j q
    → Holds m' j q
Move-Holds_other i j m m' p p' q (sees e) h ne k = k
Move-Holds_other i j m m' p p' q (misses e) h ne k = k
Move-Holds_other i j m m' p p' q (locks e) h ne k = locks-Holds i j m q e k
Move-Holds_other i j m m' p p' q (sees_again e) h ne k = k
Move-Holds_other i j m m' p p' q (misses_again e) h ne k = k
Move-Holds_other i j m m' p p' q makes h ne k = makes-Holds i j m q h.0 h.1 ne k
Move-Holds_other i j m m' p p' q unlocks h ne k = unlocks-Holds i j m q h.0 ne k
Move-Holds_other i j m m' p p' q returns h ne k = k

seen_first : (m : Memory) (p : ℕ) → IsOne m → m.p_instance ≡ some p → m.p_instance ≡ some 0
seen_first m p (inl o) e = let none_yet = o.0 in absurd cc
seen_first m p (inr o) e = o.0

first_number : (m : Memory) → IsOne m → m.p_instance ≡ none → m.allocated ≡ 0
first_number m (inl o) e = o.1
first_number m (inr o) e = let there = o.0 in absurd cc

-- The mover's own place.
pub Move-Holds :
    (i : ℕ) (m m' : Memory) (p p' : Pc) → Move i m p m' p' → IsOne m → Holds m i p → Holds m' i p'
Move-Holds i m m' p p' (sees {p = q} e) o h = seen_first m q o e
Move-Holds i m m' p p' (misses e) o h = tt
Move-Holds i m m' p p' (locks e) o h = refl
Move-Holds i m m' p p' (sees_again {p = q} e) o h = (h, seen_first m q o e)
Move-Holds i m m' p p' (misses_again e) o h = (h, e)
Move-Holds i m m' p p' makes o h = (h.0, rw (first_number m o h.1) refl)
Move-Holds i m m' p p' unlocks o h = h.1
Move-Holds i m m' p p' returns o h = (h, h)

pub Move-IsOne :
    (i : ℕ) (m m' : Memory) (p p' : Pc) → Move i m p m' p' → IsOne m → Holds m i p → IsOne m'
Move-IsOne i m m' p p' (sees e) o h = o
Move-IsOne i m m' p p' (misses e) o h = o
Move-IsOne i m m' p p' (locks e) o h = o
Move-IsOne i m m' p p' (sees_again e) o h = o
Move-IsOne i m m' p p' (misses_again e) o h = o
Move-IsOne i m m' p p' makes o h =
    let zero_yet = first_number m o h.1 in inr (rw zero_yet refl, rw zero_yet refl)
Move-IsOne i m m' p p' unlocks o h = o
Move-IsOne i m m' p p' returns o h = o

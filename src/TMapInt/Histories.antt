-- ===== src/TMapInt/Histories.antt =====
-- The state of src/TMapInt.h as what its calls tell apart: histories of calls, up to what `get`
-- returns behind them, and the ascending lists of entries are the same.
use mathlib.Core.Quot
use mathlib.Core.Quot.{Quot, Quot-set}
use mathlib.Core.HLevel.{Σ_prop_path}
use cpplib.Prelude.{
  ℕ_discrete, Option, none, some, List, [], ◌∷◌, ℤ, ◌≡◌, refl, sym, ◌∙◌, ap, int_key, Option-cases,
  inl, inr,
}
use cpplib.OrderedMap.{find}
use cpplib.OrderedMap.Order.{Above, IsAscending, insert-IsAscending, erase-IsAscending}
use cpplib.OrderedMap.Extensional.{find_ext, insert-Above}
use cpplib.TMapInt.{get, insert, del, clear}
use cpplib.TMapInt.Spec.{to_result, get-find}

pub data Call (T : Type 0) : Type 0 where
  inserts : ℤ → T → Call T
  deletes : ℤ → Call T
  clears : Call T

-- Ascending lists of entries.
abbrev pub States : Type 0 → Type 0
States T = (items : List (ℤ × T)) × IsAscending items

module _ {T : Type 0} where
  unfoldable pub step : Call T → List (ℤ × T) → List (ℤ × T)
  unfolding insert del clear
  step (inserts key value) items = insert key value items
  step (deletes key) items = del key items
  step clears items = clear items

  -- The calls on a new map, the newest first.
  unfoldable pub run : List (Call T) → List (ℤ × T)
  unfolding step
  run [] = []
  run (c ∷ calls) = step c (run calls)

  -- No `get` tells the histories apart.
  abbrev pub SameGets : List (Call T) → List (Call T) → Type 0
  SameGets h k = (key : ℤ) → get key (run h) ≡ get key (run k)

  step-IsAscending :
      (c : Call T) (items : List (ℤ × T)) → IsAscending items → IsAscending (step c items)
  unfolding step insert del clear
  step-IsAscending (inserts key value) items a = insert-IsAscending key value items a
  step-IsAscending (deletes key) items a = elim (Option-cases (find key items)) [
    | inl e ↦ rw (e, del) a
    | inr (value, e) ↦ rw (e, del) (erase-IsAscending key items a)
  ]
  step-IsAscending clears items a = tt

  pub run-IsAscending : (calls : List (Call T)) → IsAscending (run calls)
  unfolding run
  run-IsAscending [] = tt
  run-IsAscending (c ∷ calls) = step-IsAscending c (run calls) (run-IsAscending calls)

  to_result-eq : (a b : Option T) → to_result a ≡ to_result b → a ≡ b
  to_result-eq none none e = refl
  to_result-eq none (some y) e = cc
  to_result-eq (some x) none e = cc
  to_result-eq (some x) (some y) e = cc

  same_state : (h k : List (Call T)) → SameGets h k → run h ≡ run k
  same_state h k same = find_ext (run h) (run k) (run-IsAscending h) (run-IsAscending k) (λ key.
      to_result-eq (find key (run h)) (find key (run k))
        (sym (get-find key (run h)) ∙ (same key ∙ get-find key (run k))))

  -- A history with given entries.
  inserts_of : List (ℤ × T) → List (Call T)
  inserts_of [] = []
  inserts_of ((key, value) ∷ items) = inserts key value ∷ inserts_of items

  run-inserts_of : (items : List (ℤ × T)) → IsAscending items → run (inserts_of items) ≡ items
  unfolding run inserts_of step insert
  run-inserts_of [] a = refl
  run-inserts_of ((key, value) ∷ items) a =
      rw (run-inserts_of items a.1) (insert-Above key value items a.0)

  Above-prop : (key : ℤ) (items : List (ℤ × T)) → IsProp (Above key items)
  Above-prop key [] = hlevel
  Above-prop key ((j, v) ∷ items) = hlevel (Above-prop key items)

  IsAscending-prop : (items : List (ℤ × T)) → IsProp (IsAscending items)
  IsAscending-prop [] = hlevel
  IsAscending-prop ((key, v) ∷ items) = hlevel (Above-prop key items, IsAscending-prop items)

-- The histories of calls, up to what `get` tells apart.
abbrev pub Histories : Type 0 → Type 0
Histories T = Quot (SameGets {T = T})

module _ {T : Type 0} (T_set : IsSet T) where
  ℤ_set : IsSet ℤ
  ℤ_set = hlevel ℕ_discrete

  States-set : IsSet (States T)
  States-set = hlevel (T_set, ℤ_set, IsAscending-prop)

  pub state_of : Histories T → States T
  state_of =
      Quot.lift States-set (λ h. (run h, run-IsAscending h))
        (λ h k same. Σ_prop_path IsAscending-prop (same_state h k same))

  pub history_of : States T → Histories T
  history_of m = Quot.mk (inserts_of m.0)

  -- The histories of calls on a new map, taken as equal where no `get` tells them apart, are just
  -- the ascending lists of entries: a history has the state that its calls leave; two histories
  -- are equal if they leave the same state, and every ascending list is left by one. So the state
  -- keeps nothing of the calls but what `get` shows.
  pub histories_are_states :
      ((h : List (Call T)) → (state_of (Quot.mk h)).0 ≡ run h)
      × ((b : Histories T) → history_of (state_of b) ≡ b)
      × ((m : States T) → state_of (history_of m) ≡ m)
  unfolding state_of history_of
  histories_are_states = (
    λ h. refl,
    Quot.ind (λ b. Quot-set _ _)
        (λ h. Quot.sound (λ key. ap (get key) (run-inserts_of (run h) (run-IsAscending h)))),
    λ m. Σ_prop_path IsAscending-prop (run-inserts_of m.0 m.1),
  )

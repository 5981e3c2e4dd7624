-- ===== src/Tests/Maps.antt =====
-- TMapInt and TMapString at concrete entries.
use mathlib.Core.Quot
use native.Mathlib.Nat.{ℕ_set}
use cpplib.Prelude.{
  true, false, none, some, List, [], ◌∷◌, ℤ, pos, negsuc, ℕ, eq_ℤ, Text, codes, text_eq, text_key,
  int_key, text_less, if◌then◌else◌, ◌≡◌, refl,
}
use cpplib.OrderedMap
use cpplib.OrderedMap.{find}
use cpplib.TMapInt
use cpplib.TMapInt.Spec.{get-writes}
use cpplib.TMapInt.Histories.{
  Call, inserts, deletes, run, Histories, States, state_of, history_of, histories_are_states,
}
use cpplib.TMapString.{Items, returned, pop, pop_timeout, pop_front, push}
use cpplib.TMapString.Pushed.{pop-push}
use cpplib.TMapString.Front.{push_all}

abbrev ports : List (ℤ × ℕ)
ports = (negsuc 3, 80) ∷ (pos 2, 443) ∷ []

get-writes_example :
    (TMapInt.get (pos 2) (TMapInt.insert (pos 2) 8080 ports) ≡ (
      if eq_ℤ (pos 2) (pos 2)
      then (if (TMapInt.get (pos 2) ports).0 then TMapInt.get (pos 2) ports else (true, some 8080))
      else TMapInt.get (pos 2) ports))
    × (TMapInt.get (pos 2) (TMapInt.del (pos 2) ports)
        ≡ (if eq_ℤ (pos 2) (pos 2) then (false, none) else TMapInt.get (pos 2) ports))
    × (TMapInt.get (pos 2) (TMapInt.clear ports) ≡ (false, none))
get-writes_example = get-writes (pos 2) (pos 2) 8080 ports

insert_runs : TMapInt.insert (pos 0) 22 ports ≡ (negsuc 3, 80) ∷ (pos 0, 22) ∷ (pos 2, 443) ∷ []
unfolding TMapInt.insert OrderedMap.insert find OrderedMap.place
insert_runs = refl

abbrev replies : Items ℕ
replies = (codes "a", 1) ∷ (codes "c", 3) ∷ []

absent : find (codes "b") replies ≡ none
unfolding find text_eq
absent = refl

present : find (codes "c") replies ≡ some 3
unfolding find text_eq
present = refl

pop-push_example :
    (rest : Items ℕ) × (pop (codes "b") (pos 0) (push (codes "b") 2 replies).1
      ≡ returned (pos 0) (some 2) rest)
    × (pop_timeout (codes "b") (pos 0) (push (codes "b") 2 replies).1 []
        ≡ returned (pos 0) (some 2) rest)
    × ((j : Text) → find j rest ≡ find j replies)
pop-push_example = pop-push (codes "b") (pos 0) 2 replies [] absent

abbrev pushes : List (Text × ℕ)
pushes = (codes "c", 3) ∷ (codes "a", 1) ∷ []

pop_front_runs :
    pop_front (pos 0) (push_all pushes []) ≡ returned (pos 0) (some 1) ((codes "c", 3) ∷ [])
unfolding pop_front push_all push OrderedMap.insert find OrderedMap.place text_eq text_less
pop_front_runs = refl

histories_are_states_example :
    ((h : List (Call ℕ)) → (state_of ℕ_set (Quot.mk h)).0 ≡ run h)
    × ((b : Histories ℕ) → history_of ℕ_set (state_of ℕ_set b) ≡ b)
    × ((m : States ℕ) → state_of ℕ_set (history_of ℕ_set m) ≡ m)
histories_are_states_example = histories_are_states ℕ_set

-- The newest call first: a key that is there is not overwritten.
run_runs :
    run (deletes (pos 7) ∷ inserts (pos 2) 8080 ∷ inserts (negsuc 3) 80 ∷ inserts (pos 2) 443 ∷ [])
    ≡ ports
unfolding run TMapInt.insert TMapInt.del OrderedMap.insert find OrderedMap.place OrderedMap.erase
run_runs = refl

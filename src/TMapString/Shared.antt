-- ===== src/TMapString/Shared.antt =====
-- The methods of src/TMapString.h by their accesses to the map, called by threads in any
-- interleaving under the mutex and the condition variable of the object.
use cpplib.Prelude.{
  Option, none, some, [], ◌∷◌, ℤ, pos, negsuc, eq_ℤ, ℕ, Text, text_key, if◌then◌else◌, ◌≡◌, refl,
  arith, inl, inr, Bool-cases, Option-cases,
}
use cpplib.OrderedMap
use cpplib.ThreadMutex.{
  Access, Next, goes_on, waits, returns, Signal, quiet, broadcast, System, Reach, inside,
}
use cpplib.ThreadMutex.Serial.{rest_of, IsReplay, turns_serial}
use cpplib.TMapString
use cpplib.TMapString.{Items, Turn, returned, take_key, pop, pop_timeout, pop_front, push}

-- The next access of a thread: at the loop of `pop` and behind a wait in it; ahead of `find` and of
-- `erase`; the same of `pop_front`; `insert` and `broadcast` of `push`; the two searches of `pop`
-- with a timeout; and the return with a code and an item.
pub data Pc (T : Type 0) : Type 0 where
  popping : Text → Pc T
  waited : Text → ℤ → Pc T
  finding : Text → Pc T
  erasing : Text → T → Pc T
  fronting : Pc T
  front_waited : ℤ → Pc T
  reading : Pc T
  dropping : T → Pc T
  pushing : Text → T → Pc T
  telling : Pc T
  searching : Text → Pc T
  searching_again : Text → ℤ → Pc T
  leaving : ℤ → Option T → Pc T

module _ {T : Type 0} where
  abbrev pub IsMethod : Pc T → Type 0
  IsMethod (popping key) = Unit
  IsMethod fronting = Unit
  IsMethod (pushing key item) = Unit
  IsMethod (searching key) = Unit
  IsMethod (waited key code) = ⊥
  IsMethod (finding key) = ⊥
  IsMethod (erasing key item) = ⊥
  IsMethod (front_waited code) = ⊥
  IsMethod reading = ⊥
  IsMethod (dropping item) = ⊥
  IsMethod telling = ⊥
  IsMethod (searching_again key code) = ⊥
  IsMethod (leaving code item) = ⊥

  abbrev pub at :
      Items T
      → Signal
      → Next (Pc T) (Option (ℤ × Option T))
      → Access (Items T) (Pc T) (Option (ℤ × Option T))
  at items c next = record { object = items; signal = c; next = next }

  -- Reading or erasing the end of an empty map is undefined: `returns none`.
  unfoldable pub access : Pc T → Items T → Access (Items T) (Pc T) (Option (ℤ × Option T))
  access (popping key) [] = at [] quiet (waits (waited key))
  access (popping key) (e ∷ items) = at (e ∷ items) quiet (goes_on (finding key))
  access (waited key code) items =
      at items quiet
        (if eq_ℤ code (pos 0) then goes_on (popping key) else goes_on (leaving (negsuc 0) none))
  access (finding key) items = elim (OrderedMap.find key items) [
    | none ↦ at items quiet (goes_on (leaving (negsuc 1) none))
    | some item ↦ at items quiet (goes_on (erasing key item))
  ]
  access (erasing key item) items =
      at (OrderedMap.erase key items) quiet (goes_on (leaving (pos 0) (some item)))
  access fronting [] = at [] quiet (waits front_waited)
  access fronting (e ∷ items) = at (e ∷ items) quiet (goes_on reading)
  access (front_waited code) items =
      at items quiet
        (if eq_ℤ code (pos 0) then goes_on fronting else goes_on (leaving (negsuc 0) none))
  access reading [] = at [] quiet (returns none)
  access reading ((key, item) ∷ items) = at ((key, item) ∷ items) quiet (goes_on (dropping item))
  access (dropping item) [] = at [] quiet (returns none)
  access (dropping item) (e ∷ items) = at items quiet (goes_on (leaving (pos 0) (some item)))
  access (pushing key item) items = at (OrderedMap.insert key item items) quiet (goes_on telling)
  access telling items = at items broadcast (goes_on (leaving (pos 0) none))
  access (searching key) items = elim (OrderedMap.find key items) [
    | none ↦ at items quiet (waits (searching_again key))
    | some item ↦ at items quiet (goes_on (erasing key item))
  ]
  access (searching_again key code) items = elim (OrderedMap.find key items) [
    | none ↦ at items quiet (goes_on (leaving code none))
    | some item ↦ at items quiet (goes_on (erasing key item))
  ]
  access (leaving code item) items = at items quiet (returns (some (code, item)))

  -- What a turn of the model without threads leaves.
  abbrev pub outcome : (ℤ → Pc T) → Turn T → Items T × Next (Pc T) (Option (ℤ × Option T))
  outcome k (Turn.waits items) = (items, waits k)
  outcome k (returned code item items) = (items, returns (some (code, item)))

  -- The turns, by the methods on whole maps; behind a wait, those of the loop again.
  unfoldable pub turn : Pc T → Items T → Items T × Next (Pc T) (Option (ℤ × Option T))
  turn (popping key) items = outcome (waited key) (pop key (pos 0) items)
  turn (waited key code) items =
      if eq_ℤ code (pos 0)
      then outcome (waited key) (pop key (pos 0) items)
      else (items, returns (some (negsuc 0, none)))
  turn (finding key) items = outcome (waited key) (take_key key items)
  turn (erasing key item) items = (OrderedMap.erase key items, returns (some (pos 0, some item)))
  turn fronting items = outcome front_waited (pop_front (pos 0) items)
  turn (front_waited code) items =
      if eq_ℤ code (pos 0)
      then outcome front_waited (pop_front (pos 0) items)
      else (items, returns (some (negsuc 0, none)))
  turn reading [] = ([], returns none)
  turn reading (e ∷ items) = outcome front_waited (pop_front (pos 0) (e ∷ items))
  turn (dropping item) [] = ([], returns none)
  turn (dropping item) (e ∷ items) = (items, returns (some (pos 0, some item)))
  turn (pushing key item) items =
      let (code, after) = push key item items in (after, returns (some (code, none)))
  turn telling items = (items, returns (some (pos 0, none)))
  turn (searching key) items = elim (OrderedMap.find key items) [
    | none ↦ (items, waits (searching_again key))
    | some item ↦ outcome (searching_again key) (take_key key items)
  ]
  turn (searching_again key code) items =
      outcome (searching_again key) (pop_timeout key code [] items)
  turn (leaving code item) items = (items, returns (some (code, item)))

  unrolls :
      (p : Pc T) (items : Items T)
      → turn p items ≡ rest_of turn (access p items).object (access p items).next
  unfolding turn access pop pop_front push take_key TMapString.wait_round pop_timeout
      OrderedMap.find
  unrolls (popping key) [] = refl
  unrolls (popping key) (e ∷ items) = refl
  unrolls (waited key code) items = elim (Bool-cases (eq_ℤ code (pos 0))) [
    | inl woken ↦ rw woken refl
    | inr lost ↦ rw lost refl
  ]
  unrolls (finding key) items = elim (Option-cases (OrderedMap.find key items)) [
    | inl e ↦ ground (arith, e)
    | inr (item, e) ↦ ground (arith, e)
  ]
  unrolls (erasing key item) items = refl
  unrolls fronting [] = refl
  unrolls fronting (e ∷ items) = refl
  unrolls (front_waited code) items = elim (Bool-cases (eq_ℤ code (pos 0))) [
    | inl woken ↦ rw woken refl
    | inr lost ↦ rw lost refl
  ]
  unrolls reading [] = refl
  unrolls reading ((key, item) ∷ items) = refl
  unrolls (dropping item) [] = refl
  unrolls (dropping item) (e ∷ items) = refl
  unrolls (pushing key item) items = refl
  unrolls telling items = refl
  unrolls (searching key) items = elim (Option-cases (OrderedMap.find key items)) [
    | inl e ↦ ground (arith, e)
    | inr (item, e) ↦ ground (arith, e)
  ]
  unrolls (searching_again key code) items = elim (Option-cases (OrderedMap.find key items)) [
    | inl e ↦ ground (arith, e)
    | inr (item, e) ↦ ground (arith, e)
  ]
  unrolls (leaving code item) items = refl

  -- In every interleaving of the accesses of any number of threads that call the methods of one
  -- map, with waits that may end by themselves with any code: no two threads are in a method at a
  -- time, and while the mutex is free the map is what whole turns of `pop`, `pop` with a timeout,
  -- `pop_front` and `push` make of it, one after another in the order in which the threads took
  -- the mutex, each with the wait, or the code and item, that its thread got.
  pub calls_serial :
      (items : Items T) (s : System (Items T) (Pc T) (Option (ℤ × Option T))) (i j : ℕ)
      (p q p' q' : Pc T)
      → Reach access IsMethod items s
      → (s.place i ≡ inside p q → s.place j ≡ inside p' q' → i ≡ j)
        × (s.mutex ≡ none → IsReplay turn items s.log s.object)
  calls_serial items s i j p q p' q' r =
      turns_serial access IsMethod turn unrolls items i j p q p' q' r

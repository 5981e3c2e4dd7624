-- ===== src/Queue/Shared/Fifo.antt =====
-- The order of the items of a queue of src/TQueue.h that threads share.
use cpplib.Prelude.{
  none, some, List, [], ◌∷◌, ◌++◌, append_assoc, append-nil, List-cases, All, ℕ, pos, ◌-ℤ◌, ◌≡◌,
  refl, sym, ◌∙◌, ap, subst, inl, inr, Bool-cases,
}
use cpplib.ThreadMutex.{Next, returns, System, Reach, Turns}
use cpplib.ThreadMutex.Serial.{IsReplay, turns_serial}
use cpplib.ThreadMutex.Entries.{IsBack, Reach-IsEntered}
use cpplib.Queue.{TQueue, pop, pop_timeout, push, empty, full, take_front}
use cpplib.Queue.Shared.{
  Pc, popping, timing, testing, reading, dropping, pacing, pushing, adding, telling, leaving, Reply,
  IsMethod, access, turn, unrolls,
}

module _ {A : Type 0} where
  -- What a turn took in: the item of a `push` that returned 0.
  abbrev pub taken_in : Pc A → Next (Pc A) (Reply A) → List A
  taken_in (pushing item) (returns (some (pos code, none))) = item ∷ []
  taken_in _ _ = []

  -- What a turn handed out.
  abbrev pub handed_out : Next (Pc A) (Reply A) → List A
  handed_out (returns (some (code, some item))) = item ∷ []
  handed_out _ = []

  abbrev pub accepted : Turns (Pc A) (Reply A) → List A
  accepted [] = []
  accepted ((i, p, next) ∷ log) = accepted log ++ taken_in p next

  abbrev pub delivered : Turns (Pc A) (Reply A) → List A
  delivered [] = []
  delivered ((i, p, next) ∷ log) = delivered log ++ handed_out next

  -- Where a thread takes the mutex: at a method, or behind a wait.
  IsEntry : Pc A → Type 0
  IsEntry (testing entry now) = Unit
  IsEntry (popping entry now) = Unit
  IsEntry (timing entry now) = Unit
  IsEntry (pushing item) = Unit
  IsEntry (reading entry now) = ⊥
  IsEntry (dropping entry now item) = ⊥
  IsEntry (pacing entry now item) = ⊥
  IsEntry (adding item) = ⊥
  IsEntry telling = ⊥
  IsEntry (leaving code item) = ⊥

  enters : (p : Pc A) → IsMethod p → IsEntry p
  unfolding IsEntry
  enters (popping entry now) h = tt
  enters (timing entry now) h = tt
  enters (pushing item) h = tt
  enters (testing entry now) h = absurd h
  enters (reading entry now) h = absurd h
  enters (dropping entry now item) h = absurd h
  enters (pacing entry now item) h = absurd h
  enters (adding item) h = absurd h
  enters telling h = absurd h
  enters (leaving code item) h = absurd h

  Balances : Pc A → TQueue A → Type 0
  Balances p q =
      q.lst_item ++ taken_in p (turn p q).1 ≡ handed_out (turn p q).1 ++ (turn p q).0.lst_item

  turn-Balances : (p : Pc A) (q : TQueue A) → IsEntry p → Balances p q
  unfolding Balances IsEntry turn pop pop_timeout push empty full take_front ◌-ℤ◌
  turn-Balances (popping entry now) q h = elim (List-cases q.lst_item) [
    | inl e ↦ rw e refl
    | inr (x, rest, e) ↦ rw e (append-nil (x ∷ rest))
  ]
  turn-Balances (timing entry now) q h = elim (List-cases q.lst_item) [
    | inl e ↦ rw e refl
    | inr (x, rest, e) ↦ rw e (append-nil (x ∷ rest))
  ]
  turn-Balances (testing entry now) q h = elim (List-cases q.lst_item) [
    | inl e ↦ rw e refl
    | inr (x, rest, e) ↦ rw e (append-nil (x ∷ rest))
  ]
  turn-Balances (pushing item) q h = elim (Bool-cases (full q)) [
    | inl e ↦ rw e (append-nil q.lst_item)
    | inr e ↦ rw e refl
  ]
  turn-Balances (reading entry now) q h = absurd h
  turn-Balances (dropping entry now item) q h = absurd h
  turn-Balances (pacing entry now item) q h = absurd h
  turn-Balances (adding item) q h = absurd h
  turn-Balances telling q h = absurd h
  turn-Balances (leaving code item) q h = absurd h

  comes-IsBack : (p : Pc A) (q : TQueue A) → IsBack IsEntry (access p q).next
  unfolding IsEntry access
  comes-IsBack (popping entry now) q = elim (Bool-cases (empty q)) [
    | inl e ↦ rw e (λ code. tt)
    | inr e ↦ rw e tt
  ]
  comes-IsBack (timing entry now) q = elim (Bool-cases (empty q)) [
    | inl e ↦ rw e (λ code. tt)
    | inr e ↦ rw e tt
  ]
  comes-IsBack (testing entry now) q = elim (Bool-cases (empty q)) [
    | inl e ↦ rw e tt
    | inr e ↦ rw e tt
  ]
  comes-IsBack (reading entry now) q = elim (List-cases q.lst_item) [
    | inl e ↦ rw e tt
    | inr (x, rest, e) ↦ rw e tt
  ]
  comes-IsBack (dropping entry now item) q = elim (List-cases q.lst_item) [
    | inl e ↦ rw e tt
    | inr (x, rest, e) ↦ rw e tt
  ]
  comes-IsBack (pacing entry now item) q = tt
  comes-IsBack (pushing item) q = elim (Bool-cases (full q)) [ inl e ↦ rw e tt | inr e ↦ rw e tt ]
  comes-IsBack (adding item) q = tt
  comes-IsBack telling q = tt
  comes-IsBack (leaving answer item) q = tt

  log-Balances :
      (origin q : TQueue A) (log : Turns (Pc A) (Reply A))
      → IsReplay turn origin log q
      → All (λ (t : ℕ × Pc A × Next (Pc A) (Reply A)). IsEntry t.1) log
      → origin.lst_item ++ accepted log ≡ delivered log ++ q.lst_item
  unfolding Balances
  log-Balances origin q [] e v =
      append-nil origin.lst_item ∙ ap (λ (r : TQueue A). r.lst_item) (sym e)
  log-Balances origin q ((i, p, next) ∷ log) (before, replay, e) (own, v) =
      let rest = log-Balances origin before log replay v in
      let one : before.lst_item ++ taken_in p next ≡ handed_out next ++ q.lst_item =
        subst
          (λ (r : TQueue A × Next (Pc A) (Reply A)).
            before.lst_item ++ taken_in p r.1 ≡ handed_out r.1 ++ r.0.lst_item)
          e (turn-Balances p before own) in
      sym (append_assoc origin.lst_item (accepted log) (taken_in p next))
      ∙ ap (λ l. l ++ taken_in p next) rest
      ∙ append_assoc (delivered log) before.lst_item (taken_in p next)
      ∙ ap (λ l. delivered log ++ l) one
      ∙ sym (append_assoc (delivered log) (handed_out next) q.lst_item)

  -- In every interleaving of the accesses of any number of threads that call `push`, `pop` and `pop`
  -- with a timeout on one queue, with waits that may end by themselves: while the mutex is free,
  -- what was in the queue followed by the items of the calls of `push` that returned 0 is what the
  -- calls of `pop` gave their threads followed by what is in the queue, both in the order in which
  -- the threads took the mutex. No item is lost, doubled or overtaken.
  pub calls_fifo :
      (q : TQueue A) (s : System (TQueue A) (Pc A) (Reply A))
      → Reach access IsMethod q s
      → s.mutex ≡ none
      → q.lst_item ++ accepted s.log ≡ delivered s.log ++ s.object.lst_item
  calls_fifo q s r open_mutex =
      log-Balances q s.object s.log
        ((turns_serial access IsMethod turn unrolls q 0 0 telling telling telling telling r).1
          open_mutex)
        (Reach-IsEntered access IsMethod IsEntry enters comes-IsBack r)

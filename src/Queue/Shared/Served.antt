-- ===== src/Queue/Shared/Served.antt =====
-- The threads that wait on a queue of src/TQueue.h.
use cpplib.Prelude.{
  none, [], List-cases, ℕ, ℤ, ◌≡◌, refl, inl, inr, Bool, true, false, if◌then◌else◌, arith,
}
use cpplib.ThreadMutex.{Access, Next, goes_on, waits, broadcast, System, Reach, blocked}
use cpplib.ThreadMutex.Waking.{Keeps, waiting_lem}
use cpplib.Queue.{TQueue, empty, full}
use cpplib.Queue.Shared.{
  Pc, popping, timing, testing, reading, dropping, pacing, pushing, adding, telling, leaving, Reply,
  IsMethod, access, turn, unrolls,
}

module _ {A : Type 0} where
  IsCalm : TQueue A → Type 0
  IsCalm q = q.lst_item ≡ []

  IsTelling : Pc A → Type 0
  IsTelling p = p ≡ telling

  tells : (p : Pc A) (q : TQueue A) → IsTelling p → (access p q).signal ≡ broadcast
  unfolding IsTelling access
  tells p q e = rw e refl

  -- An access that leaves the list of items as it is and waits only on an empty one.
  unchanged-Keeps :
      (q : TQueue A) (a : Access (TQueue A) (Pc A) (Reply A))
      → a.object ≡ q
      → ((k : ℤ → Pc A) → a.next ≡ waits k → q.lst_item ≡ [])
      → Keeps IsCalm IsTelling q a
  unfolding IsCalm
  unchanged-Keeps q a e h = (λ calm. inl (rw e calm), λ k f. rw e (h k f))

  waits-true :
      (b : Bool) (p : Pc A) (k k' : ℤ → Pc A)
      → ◌≡◌ {A = Next (Pc A) (Reply A)} (if b then waits k' else goes_on p) (waits k)
      → b ≡ true
  waits-true true p k k' e = refl
  waits-true false p k k' e = absurd cc

  never_waits :
      (b : Bool) (p p' : Pc A) (k : ℤ → Pc A)
      → ◌≡◌ {A = Next (Pc A) (Reply A)} (if b then goes_on p' else goes_on p) (waits k)
      → ⊥
  never_waits true p p' k e = cc
  never_waits false p p' k e = cc

  empty-items : (q : TQueue A) → empty q ≡ true → q.lst_item ≡ []
  unfolding empty
  empty-items q e = elim (List-cases q.lst_item) [
    | inl none_there ↦ none_there
    | inr (x, rest, there) ↦ absurd (ground (arith, there, e))
  ]

  access-Keeps : (p : Pc A) (q : TQueue A) → Keeps IsCalm IsTelling q (access p q)
  unfolding access IsCalm IsTelling
  access-Keeps (popping entry now) q =
      unchanged-Keeps q (access (popping entry now) q) refl
        (λ k e. empty-items q (waits-true (empty q) (reading entry now) k _ e))
  access-Keeps (timing entry now) q =
      unchanged-Keeps q (access (timing entry now) q) refl
        (λ k e. empty-items q (waits-true (empty q) (testing entry now) k _ e))
  access-Keeps (testing entry now) q =
      unchanged-Keeps q (access (testing entry now) q) refl
        (λ k e. absurd (never_waits (empty q) (reading entry now) _ k e))
  access-Keeps (reading entry now) q = unchanged-Keeps q (access (reading entry now) q) refl (λ k e.
      elim (List-cases q.lst_item) [
        | inl none_there ↦ none_there
        | inr (x, rest, there) ↦
            let goes : (access (reading entry now) q).next ≡ goes_on (dropping entry now x) =
              rw there refl in
            absurd (cc (goes, e))
      ])
  access-Keeps (dropping entry now item) q = elim (List-cases q.lst_item) [
    | inl there ↦ (λ calm. inl (rw there refl), λ k e. rw there refl)
    | inr (x, rest, there) ↦
        let goes : (access (dropping entry now item) q).next ≡ goes_on (pacing entry now item) =
          rw there refl in
        (λ calm. absurd (cc (calm, there)), λ k e. absurd (cc (goes, e)))
  ]
  access-Keeps (pacing entry now item) q = (λ calm. inl calm, λ k e. absurd cc)
  access-Keeps (pushing item) q =
      unchanged-Keeps q (access (pushing item) q) refl
        (λ k e. absurd (never_waits (full q) (adding item) _ k e))
  access-Keeps (adding item) q = (λ calm. inr (telling, refl, refl), λ k e. absurd cc)
  access-Keeps telling q = (λ calm. inl calm, λ k e. absurd cc)
  access-Keeps (leaving code item) q = (λ calm. inl calm, λ k e. absurd cc)

  -- In every interleaving of the accesses of any number of threads that call `push`, `pop` and `pop`
  -- with a timeout on one queue, with waits that may end by themselves: whenever the mutex is
  -- free, a thread waits only while the queue is empty. No wake-up is lost.
  pub waits_on_empty :
      (q : TQueue A) (s : System (TQueue A) (Pc A) (Reply A)) (j : ℕ) (k : ℤ → Pc A)
      → Reach access IsMethod q s
      → s.mutex ≡ none
      → s.place j ≡ blocked k
      → s.object.lst_item ≡ []
  unfolding IsCalm
  waits_on_empty q s j k r open_mutex e =
      waiting_lem access IsMethod turn unrolls IsCalm IsTelling access-Keeps tells q j k r
        open_mutex e

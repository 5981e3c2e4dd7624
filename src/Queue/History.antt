-- ===== src/Queue/History.antt =====
-- What a TQueue of src/TQueue.h delivers over any interleaving of its producers and consumers.
pub mod Capacity
use cpplib.Prelude.{
  ℕ, ◌+◌, ◌≤◌, ◌<◌, ℤ, pos, ◌-ℤ◌, ◌≡◌, ◌≢◌, ◌⊎◌, inl, inr, refl, sym, ap, ◌∙◌, Bool, true, false,
  ◌&&◌, Option, none, some, List, [], ◌∷◌, ◌++◌, append_assoc, append-nil, arith, ltb, length,
  length-append, Bool-cases, if◌then◌else◌, subst, ◌↔◌,
}
use cpplib.TimeStamp.{TimeStamp}
use cpplib.Queue.{TQueue, push, pop, pop_timeout, full, empty, take_front}

-- A thread's turn under the lock. A `pop` that has no item leaves its thread waiting; it comes
-- back as a later turn.
pub data Turn {ℓ} (A : Type ℓ) : Type ℓ where
  pushes : A → Turn A
  pops : TimeStamp → TimeStamp → Turn A
  pops_timeout : TimeStamp → TimeStamp → Turn A

-- The queue with what it has taken in and handed out so far, oldest first.
pub record Trace {ℓ} (A : Type ℓ) : Type ℓ where
  pub queue : TQueue A
  pub accepted : List A
  pub delivered : List A

module _ {ℓ} {A : Type ℓ} where
  deliver : Trace A → Option (A × TQueue A × TimeStamp) → Trace A
  deliver t none = t
  deliver t (some (item, q, last)) = record t { queue = q; delivered = t.delivered ++ item ∷ [] }

  accept : Trace A → A → ℤ × TQueue A → Trace A
  accept t item (pos code, q) = record t { queue = q; accepted = t.accepted ++ item ∷ [] }
  accept t item (_, q) = record t { queue = q }

  turn : Trace A → Turn A → Trace A
  unfolding deliver accept
  turn t (pushes item) = accept t item (push t.queue item)
  turn t (pops entry now) = deliver t (pop t.queue entry now)
  turn t (pops_timeout entry now) = deliver t (pop_timeout t.queue entry now).1

  unfoldable pub run : Trace A → List (Turn A) → Trace A
  unfolding turn
  run t [] = t
  run t (c ∷ cs) = run (turn t c) cs

  -- What was there and came in is what went out and is still there, in the same order.
  abbrev pub Balanced : List A → Trace A → Type ℓ
  Balanced before t = before ++ t.accepted ≡ t.delivered ++ t.queue.lst_item

  deliver-Balanced :
      (before items : List A) (t : Trace A) (entry now : TimeStamp)
      → items ≡ t.queue.lst_item
      → Balanced before t
      → Balanced before (deliver t (take_front items t.queue entry now))
  unfolding deliver take_front
  deliver-Balanced before [] t entry now e b = b
  deliver-Balanced before (x ∷ xs) t entry now e b =
      ground (arith, b, append_assoc t.delivered (x ∷ []) xs)

  accept-Balanced :
      (before : List A) (t : Trace A) (item : A)
      → Balanced before t
      → Balanced before (accept t item (push t.queue item))
  unfolding accept push ◌-ℤ◌
  accept-Balanced before t item b = ground (
    arith,
    append_assoc before t.accepted (item ∷ []),
    append_assoc t.delivered t.queue.lst_item (item ∷ []),
  )

  turn-Balanced :
      (before : List A) (t : Trace A) (c : Turn A) → Balanced before t → Balanced before (turn t c)
  unfolding turn pop pop_timeout
  turn-Balanced before t (pushes item) b = accept-Balanced before t item b
  turn-Balanced before t (pops entry now) b = deliver-Balanced before _ t entry now refl b
  turn-Balanced before t (pops_timeout entry now) b = elim (Bool-cases (empty t.queue)) [
    | inl e ↦ rw (e, deliver) b
    | inr e ↦ rw e (deliver-Balanced before _ t entry now refl b)
  ]

  run-Balanced :
      (before : List A) (t : Trace A) (cs : List (Turn A))
      → Balanced before t
      → Balanced before (run t cs)
  unfolding run
  run-Balanced before t [] b = b
  run-Balanced before t (c ∷ cs) b = run-Balanced before (turn t c) cs (turn-Balanced before t c b)

  unfoldable pub start : TQueue A → Trace A
  start q = record { queue = q; accepted = []; delivered = [] }

  -- Over any sequence of turns of producers and consumers, what was in the queue followed by what
  -- it accepted is what it delivered followed by what is in it: no item is lost, doubled or
  -- overtaken, whichever thread pops it and whatever the rate limit does.
  pub run_fifo :
      (q : TQueue A) (cs : List (Turn A))
      → let t = run (start q) cs in q.lst_item ++ t.accepted ≡ t.delivered ++ t.queue.lst_item
  unfolding start
  run_fifo q cs = run-Balanced q.lst_item (start q) cs (append-nil q.lst_item)

-- ===== src/Queue/History/Capacity.antt =====
-- The size limit of src/TQueue.h, over any interleaving of turns.
use cpplib.Prelude.{
  ℕ, ◌+◌, ◌≤◌, ◌<◌, pos, ◌-ℤ◌, ◌≡◌, ◌⊎◌, inl, inr, refl, sym, ap, ◌∙◌, true, false, List, [], ◌∷◌,
  ◌++◌, append_assoc, append-nil, arith, length, length-append, Bool-cases, subst,
}
use cpplib.TimeStamp.{TimeStamp}
use cpplib.Queue.{TQueue, push, pop, pop_timeout, full, empty, take_front}
use cpplib.Queue.History.{Turn, pushes, pops, pops_timeout, Trace, deliver, accept, turn, run}

module _ {ℓ} {A : Type ℓ} where
  -- `push` refuses exactly when `full` says so, with the result -1 and the queue as it was, and
  -- otherwise puts the item behind all others and changes nothing else.
  pub push-full :
      (q : TQueue A) (item : A)
      → ((full q ≡ true) × (push q item ≡ (pos 0 -ℤ pos 1, q)))
        ⊎ ((full q ≡ false)
            × (push q item ≡ (pos 0, record q { lst_item = q.lst_item ++ item ∷ [] })))
  unfolding push full
  push-full q item = ground arith

  abbrev pub Within : ℕ → TQueue A → Type 0
  Within m q = (q.max_size ≡ m) × (length q.lst_item ≤ m + 1)

  take_front-Within :
      (m : ℕ) (items : List A) (t : Trace A) (entry now : TimeStamp)
      → items ≡ t.queue.lst_item
      → Within m t.queue
      → Within m (deliver t (take_front items t.queue entry now)).queue
  unfolding deliver take_front
  take_front-Within m [] t entry now e w = w
  take_front-Within m (x ∷ xs) t entry now e w = ground (arith, ap length e)

  turn-Within :
      (m : ℕ) (t : Trace A) (c : Turn A) → 0 < m → Within m t.queue → Within m (turn t c).queue
  unfolding turn pop pop_timeout accept push ◌-ℤ◌
  turn-Within m t (pushes item) h w = ground (arith, length-append t.queue.lst_item (item ∷ []))
  turn-Within m t (pops entry now) h w = take_front-Within m _ t entry now refl w
  turn-Within m t (pops_timeout entry now) h w = elim (Bool-cases (empty t.queue)) [
    | inl e ↦ rw (e, deliver) w
    | inr e ↦ rw e (take_front-Within m _ t entry now refl w)
  ]

  -- A queue with the limit `m`, 0 excepted, that holds at most `m + 1` items holds at most that
  -- many after any sequence of turns, and its limit stays.
  pub run-Within :
      (m : ℕ) (t : Trace A) (cs : List (Turn A))
      → 0 < m
      → Within m t.queue
      → Within m (run t cs).queue
  unfolding run
  run-Within m t [] h w = w
  run-Within m t (c ∷ cs) h w = run-Within m (turn t c) cs h (turn-Within m t c h w)

  pub push_all : TQueue A → List A → TQueue A
  push_all q [] = q
  push_all q (x ∷ xs) = push_all (push q x).1 xs

  push_room :
      (q : TQueue A) (item : A)
      → length q.lst_item ≤ q.max_size
      → (push q item).1 ≡ record q { lst_item = q.lst_item ++ item ∷ [] }
  unfolding push
  push_room q item h = ground arith

  push_no_room :
      (q : TQueue A) (item : A)
      → 0 < q.max_size
      → q.max_size < length q.lst_item
      → (push q item).0 ≡ pos 0 -ℤ pos 1
  unfolding push
  push_no_room q item h k = ground arith

  -- The limit is met only behind it: a queue with the limit `m` takes in `m + 1` items and refuses
  -- the next.
  pub push_all_fills :
      (q : TQueue A) (items : List A) (next : A)
      → 0 < q.max_size
      → length q.lst_item + length items ≡ q.max_size + 1
      → ((push_all q items).lst_item ≡ q.lst_item ++ items)
        × ((push (push_all q items) next).0 ≡ pos 0 -ℤ pos 1)
  unfolding push_all
  push_all_fills q [] next h e = (sym (append-nil q.lst_item), push_no_room q next h (omega arith))
  push_all_fills q (x ∷ xs) next h e =
      let ih =
        push_all_fills (record q { lst_item = q.lst_item ++ x ∷ [] }) xs next h
          (omega (arith, length-append q.lst_item (x ∷ []))) in
      subst
        (λ u.
          ((push_all u xs).lst_item ≡ q.lst_item ++ x ∷ xs)
          × ((push (push_all u xs) next).0 ≡ pos 0 -ℤ pos 1))
        (sym (push_room q x (omega arith))) (ih.0 ∙ append_assoc q.lst_item (x ∷ []) xs, ih.1)

-- ===== src/Tests/Queues.antt =====
-- TQueue, TVector and TimeStamp at concrete values.
use cpplib.Prelude.{ℕ, pos, ◌-ℤ◌, ◌+ℤ◌, ◌*ℤ◌, ◌≡◌, refl, List, [], ◌∷◌, arith}
use cpplib.TimeStamp.{TimeStamp, to_useconds, minus}
use cpplib.Queue
use cpplib.Queue.{TQueue, Pace, push}
use cpplib.Queue.History.{Turn, pushes, pops, pops_timeout, run, start}
use cpplib.Queue.History.Capacity.{Within, run-Within}
use cpplib.TVector
use cpplib.TVector.{TVector}
use cpplib.TVector.Same.{as_queue, as_popped, operations_Same}

abbrev at : ℕ → ℕ → TimeStamp
at s us = record { seconds = pos s; micro_seconds = pos us }

abbrev limited : TQueue ℕ
limited = record {
  lst_item = 7 ∷ 8 ∷ [];
  max_size = 2;
  wake_up_ts = at 2000 0;
  rate_limit = 2;
  try_pop_cnt = 0;
}

borrow_runs : to_useconds (minus (at 5 100) (at 3 200)) ≡ pos 1_999_900
unfolding to_useconds minus ◌-ℤ◌ ◌+ℤ◌ ◌*ℤ◌
borrow_runs = refl

-- A limit of two: a call that counts, one that fills the quota, and two that are too early.
abbrev fresh : Pace
fresh = record { try_cnt = 0; wake_up = at 3000 0; last_pop = at 3000 0 }

abbrev turns : List (Turn ℕ)
turns = pushes 9 ∷ pops (at 2001 0) (at 2001 1) ∷ pops_timeout (at 2001 0) (at 2001 2) ∷ []

turns-run : (run (start limited) turns).delivered ≡ 7 ∷ 8 ∷ []
unfolding run start push Queue.pop Queue.pop_timeout ◌-ℤ◌
turns-run = refl

start-Within : Within 2 (start limited).queue
unfolding start
start-Within = (refl, omega arith)

run-Within_example : Within 2 (run (start limited) turns).queue
run-Within_example = run-Within 2 (start limited) turns (omega arith) start-Within

abbrev vector : TVector ℕ
vector = record {
  lst_item = 7 ∷ [];
  max_size = 0;
  wake_up_ts = at 2000 0;
  rate_limit = 3;
  try_pop_cnt = 0;
}

operations_Same_example :
    as_popped (TVector.pop vector (at 2000 1) (at 2000 2))
    ≡ Queue.pop (as_queue vector) (at 2000 1) (at 2000 2)
operations_Same_example = (operations_Same vector 8 (at 2000 1) (at 2000 2) (at 2000 1)).3

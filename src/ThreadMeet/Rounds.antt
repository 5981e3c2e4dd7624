-- ===== src/ThreadMeet/Rounds.antt =====
-- Threads that arrive at a point of src/ThreadMeet.cpp one after the other.
use cpplib.Prelude.{ap, ℕ, zero, suc, ◌+◌, ◌-◌, List, [], ◌∷◌, ◌++◌, ◌≡◌, refl, arith}
use cpplib.ThreadMeet.{ThreadMeet, Action, passes, wakes_all, waits, init, meet}

-- So many threads arrive, each with no time limit.
unfoldable pub arrive : ℕ → ThreadMeet → ThreadMeet × List Action
arrive zero m = (m, [])
arrive (suc n) m =
    let (m1, action) = meet 0 0 m in let (m2, actions) = arrive n m1 in (m2, action ∷ actions)

abbrev pub repeat : ℕ → Action → List Action
repeat zero a = []
repeat (suc n) a = a ∷ repeat n a

-- All pass a point whose count is zero.
arrive_open : (k : ℕ) (m : ThreadMeet) → m.count ≡ 0 → arrive k m ≡ (m, repeat k passes)
unfolding arrive meet
arrive_open zero m e = refl
arrive_open (suc k) m e = ground (arith, e, arrive_open k m e)

arrive_counted :
    (n k : ℕ) (m : ThreadMeet)
    → m.count ≡ suc n
    → arrive (n + suc k) m ≡ (record m { count = 0 }, repeat n waits ++ wakes_all ∷ repeat k passes)
unfolding arrive meet
arrive_counted zero k m e =
    let all : 0 + suc k ≡ suc k = omega arith in
    rw all (ground (arith, e, arrive_open k (record m { count = 0 }) refl))
arrive_counted (suc n) k m e =
    let all : suc n + suc k ≡ suc (n + suc k) = omega arith in
    let left : m.count - 1 ≡ suc n = omega arith in
    rw all
      (ground (arith, e, left, arrive_counted n k (record m { count = m.count - 1 }) (omega arith)))

-- At a point for `n + 1` threads the first `n` wait, the next wakes them all, and every thread
-- behind it passes.
pub arrive_meets :
    (n k memory : ℕ)
    → (arrive (n + suc k) (init (suc n) memory)).1 ≡ repeat n waits ++ wakes_all ∷ repeat k passes
unfolding init
arrive_meets n k memory = ap (λ r. r.1) (arrive_counted n k (init (suc n) memory) (ground arith))

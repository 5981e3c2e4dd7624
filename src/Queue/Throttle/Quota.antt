-- ===== src/Queue/Throttle/Quota.antt =====
-- The quota of a second in src/TQueue.h, over the calls of `pop` that share it.
use cpplib.Prelude.{ℕ, pos, ◌+ℤ◌, ◌≤ℤ◌, ◌≡◌, true, List, [], ◌∷◌}
use cpplib.TimeStamp.{TimeStamp, to_useconds, less}
use cpplib.Queue.{Pace, throttle}

abbrev pub next_second : TimeStamp → TimeStamp
next_second now = record { seconds = now.seconds +ℤ pos 1; micro_seconds = pos 0 }

-- Behind the wake-up time, and not two seconds yet.
abbrev pub IsIn : TimeStamp → TimeStamp → Type 0
IsIn wake now = (less wake now ≡ true) × (to_useconds now ≤ℤ to_useconds wake +ℤ pos 1_999_999)

-- The pace behind calls of `pop`, each with its readings of the clock at the call and with an item.
unfoldable pub paced : ℕ → List (TimeStamp × TimeStamp) → Pace → Pace
paced limit [] p = p
paced limit ((entry, now) ∷ calls) p =
    paced limit calls (throttle limit now (record p { last_pop = entry }))

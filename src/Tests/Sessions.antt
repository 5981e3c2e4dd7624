-- ===== src/Tests/Sessions.antt =====
-- SessionMgt at a concrete history.
use cpplib.Prelude.{
  ◌+ℤ◌, ◌*ℤ◌, ℕ, pos, false, none, some, List, [], ◌∷◌, Text, codes, text_key, int_key, text_eq,
  text_less, if◌then◌else◌, ◌≡◌, refl, arith,
}
use cpplib.OrderedMap.{find}
use cpplib.OrderedMap
use cpplib.Decimal.{to_string}
use cpplib.TimeStamp.{to_u64, TimeStamp, to_useconds}
use cpplib.SessionMgt.{
  Session, SessionMgt, init, insert_session, update_read, change, read_more, check, gen_uid,
  new_session, is_valid_sesssion, get_fd, is_idle,
}
use cpplib.SessionMgt.Invariant.{IsConsistent}
use cpplib.SessionMgt.Check.{staying, check_exact}
use cpplib.SessionMgt.Calls.{Call, inserts, reads, run, run-IsConsistent, step}

abbrev at : ℕ → TimeStamp
at s = record { seconds = pos s; micro_seconds = pos 0 }

abbrev ip : Text
ip = codes "10.0.0.1"

-- Two clients, and one of them is read from a minute later.
abbrev calls : List Call
calls =
    inserts (pos 5) ip 80 (at 2000)
    ∷ inserts (pos 6) ip 81 (at 2000)
    ∷ reads (pos 6) 9 (at 2061)
    ∷ []

abbrev mgt : SessionMgt
mgt = run init calls

consistent : IsConsistent mgt
consistent = run-IsConsistent calls (omega arith)

abbrev now : ℕ
now = to_u64 (to_useconds (at 2062))

abbrev first : Session
first = new_session (codes "10.0.0.1_80_2000_1") (pos 5) ip 80 2_000_000_000

first_there : find (pos 5) mgt.sessions ≡ some first
unfolding run step init insert_session update_read change read_more gen_uid new_session check
    is_valid_sesssion get_fd find OrderedMap.assign OrderedMap.replace OrderedMap.erase
    OrderedMap.place text_eq text_less to_string to_useconds ◌+ℤ◌ ◌*ℤ◌
first_there = refl

check_exact_example :
    (find (pos 6) (check (at 2062) mgt).sessions ≡ staying now (find (pos 6) mgt.sessions))
    × (find first.id (check (at 2062) mgt).fds ≡ (if is_idle now first then none else some (pos 5)))
check_exact_example = check_exact (at 2062) mgt consistent (pos 5) (pos 6) first first_there

-- The session of descriptor 5 is gone, and that of 6 stays.
check_runs :
    (find (pos 5) (check (at 2062) mgt).sessions ≡ none)
    × (is_valid_sesssion (codes "10.0.0.1_80_2000_1") (check (at 2062) mgt) ≡ false)
    × (get_fd (codes "10.0.0.1_81_2000_2") (check (at 2062) mgt) ≡ some (pos 6))
unfolding run step init insert_session update_read change read_more gen_uid new_session check
    is_valid_sesssion get_fd find OrderedMap.assign OrderedMap.replace OrderedMap.erase
    OrderedMap.place text_eq text_less to_string to_useconds ◌+ℤ◌ ◌*ℤ◌
check_runs = (refl, refl, refl)

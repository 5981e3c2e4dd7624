-- ===== src/Tests/Clients.antt =====
-- TcpClientEpoll at concrete results of the system calls.
use cpplib.Prelude.{ℕ, pos, negsuc, true, List, [], ◌∷◌, All, ◌≡◌, ◌≢◌, refl, arith, codes}
use cpplib.ConnMgtLb.{StSvr, ConnMgtLb, release, refresh}
use cpplib.TcpClientEpoll.{Attempt, init}
use cpplib.TcpClientEpoll.Descriptors.{IsTight, init-IsTight}
use cpplib.TcpClientEpoll.Calls.{Call, connects, closes, polls, run, run-IsTight}
use cpplib.TcpClientEpoll.Pool.{tcp_class, refresh_holds}

abbrev succeeds : Attempt
succeeds = record {
  socket = pos 4;
  connected = pos 0;
  limited = pos 0;
  created = pos 5;
  added = pos 0;
  masked = pos 0;
  threaded = pos 0;
}

-- No thread can be started.
abbrev no_thread : Attempt
no_thread = record succeeds { threaded = pos 11 }

four_is_not_five : pos 5 ≢ pos 4
four_is_not_five = λ e. ground (arith, e)

abbrev calls : List Call
calls = connects no_thread ∷ connects succeeds ∷ polls ((true, negsuc 0) ∷ []) ∷ closes ∷ []

run-IsTight_example : IsTight (run (init true) calls)
run-IsTight_example =
    run-IsTight true calls ((refl, refl, four_is_not_five), ((refl, refl, four_is_not_five), tt))

abbrev server : ℕ → StSvr
server port = record { ip = codes "10.0.0.1"; ip_out = []; port = port; domain = [] }

abbrev pool : ConnMgtLb (tcp_class true (λ s. succeeds))
pool = record { conns = (server 1, init true) ∷ []; index = 0 }

refresh_holds_example :
    All (λ c. IsTight c.1) (refresh (tcp_class true (λ s. succeeds)) (server 2 ∷ []) pool).conns
    × All
        (λ c. c.1.descriptors ≡ [])
        (release (tcp_class true (λ s. succeeds)) (server 2 ∷ []) pool.conns).1
refresh_holds_example =
    refresh_holds true (λ s. succeeds) (server 2 ∷ []) pool (λ s. (refl, refl, four_is_not_five))
      (init-IsTight true, tt)

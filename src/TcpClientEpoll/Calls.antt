-- ===== src/TcpClientEpoll/Calls.antt =====
-- Sequences of calls on a client of src/ConnMgt/TcpClientEpoll.cpp.
use cpplib.Prelude.{ℤ, Bool, List, [], ◌∷◌}
use cpplib.TcpClientEpoll.{TcpClientEpoll, Attempt, init, connect, close, tcp_epoll_cb}
use cpplib.TcpClientEpoll.Descriptors.{
  IsTight, IsClean, init-IsTight, connect-IsTight, close-IsTight, tcp_epoll_cb-IsTight,
}

-- The calls that change a client: of the pool and the user, and the rounds of its thread.
pub data Call : Type 0 where
  connects : Attempt → Call
  closes : Call
  polls : List (Bool × ℤ) → Call

unfoldable pub run : TcpClientEpoll → List Call → TcpClientEpoll
run c [] = c
run c (connects a ∷ calls) = run (connect a c).1 calls
run c (closes ∷ calls) = run (close c) calls
run c (polls events ∷ calls) = run (tcp_epoll_cb events c) calls

abbrev pub AreClean : List Call → Type 0
AreClean [] = Unit
AreClean (connects a ∷ calls) = IsClean a × AreClean calls
AreClean (closes ∷ calls) = AreClean calls
AreClean (polls events ∷ calls) = AreClean calls

run_from :
    (calls : List Call) (c : TcpClientEpoll) → AreClean calls → IsTight c → IsTight (run c calls)
unfolding run
run_from [] c clean t = t
run_from (connects a ∷ calls) c clean t =
    run_from calls (connect a c).1 clean.1 (connect-IsTight a c clean.0 t)
run_from (closes ∷ calls) c clean t = run_from calls (close c) clean (close-IsTight c t)
run_from (polls events ∷ calls) c clean t =
    run_from calls (tcp_epoll_cb events c) clean (tcp_epoll_cb-IsTight events c t)

-- Over any sequence of calls on a new client, in which no `connect` fails between `epoll_create`
-- and `pthread_create`, whatever else fails: an open client holds its socket, and its epoll
-- descriptor if it is asynchronous, and a closed client holds no descriptor.
pub run-IsTight :
    (asyn : Bool) (calls : List Call) → AreClean calls → IsTight (run (init asyn) calls)
run-IsTight asyn calls clean = run_from calls (init asyn) clean (init-IsTight asyn)

-- ===== src/TcpClientEpoll.antt =====
-- src/ConnMgt/TcpClientEpoll.cpp: a client connection, with a thread of its own that waits on
-- epoll if it is asynchronous. What the system calls return is an argument. Of what the object
-- holds, the open descriptors are part of the state.
pub mod Descriptors
pub mod Calls
pub mod Pool
pub mod Traffic
use cpplib.Prelude.{
  ℕ, ℤ, pos, negsuc, ltb_ℤ, eq_ℤ, Bool, true, false, not, ◌&&◌, Option, List, [], ◌∷◌,
  if◌then◌else◌,
}
use cpplib.TcpReactor.{remove}

pub record TcpClientEpoll : Type 0 where
  pub fd : ℤ
  pub is_open : Bool
  pub asyn : Bool
  pub stop_epoll : Bool
  pub epfd : ℤ
  pub descriptors : List ℤ

-- What the calls in `connect` return, in their order: `socket`, `connect_s`, `get_rlimit`,
-- `epoll_create`, `epoll_ctl`, `signal_mask` and `pthread_create`.
pub record Attempt : Type 0 where
  pub socket : ℤ
  pub connected : ℤ
  pub limited : ℤ
  pub created : ℤ
  pub added : ℤ
  pub masked : ℤ
  pub threaded : ℤ

unfoldable pub init : Bool → TcpClientEpoll
init asyn = record {
  fd = negsuc 0;
  is_open = false;
  asyn = asyn;
  stop_epoll = false;
  epfd = negsuc 0;
  descriptors = [];
}

abbrev pub is_zero : ℤ → Bool
is_zero n = eq_ℤ n (pos 0)

-- `do_init` of an asynchronous client.
pub do_init : Attempt → TcpClientEpoll → ℤ × TcpClientEpoll
do_init a c =
    if not (is_zero a.limited)
    then (a.limited, c)
    else if eq_ℤ a.created (negsuc 0)
    then (negsuc 0, record c { epfd = negsuc 0 })
    else if is_zero a.added
    then (a.masked, record c { epfd = a.created; descriptors = a.created ∷ c.descriptors })
    else (a.added, record c { epfd = a.created; descriptors = a.created ∷ c.descriptors })

-- `::close(_fd)` and `_fd = -1`.
pub close_fd : TcpClientEpoll → TcpClientEpoll
close_fd c = record c { fd = negsuc 0; descriptors = remove c.fd c.descriptors }

pub close_epfd : TcpClientEpoll → TcpClientEpoll
close_epfd c = record c { epfd = negsuc 0; descriptors = remove c.epfd c.descriptors }

-- The part of `connect` behind `connect_s`.
pub start : Attempt → TcpClientEpoll → ℤ × TcpClientEpoll
unfolding do_init close_fd close_epfd
start a c =
    if c.asyn
    then (let (code, ready) = do_init a c in
        if not (is_zero code)
        then (code, close_fd ready)
        else if is_zero a.threaded
        then (pos 0, record ready { is_open = true })
        else (a.threaded, close_fd (close_epfd ready)))
    else (pos 0, record c { is_open = true })

unfoldable pub connect : Attempt → TcpClientEpoll → ℤ × TcpClientEpoll
unfolding start
connect a c =
    if c.is_open
    then (negsuc 0, c)
    else if ltb_ℤ a.socket (pos 0)
    then (negsuc 0, record c { fd = negsuc 0 })
    else (let got = record c { fd = a.socket; descriptors = a.socket ∷ c.descriptors } in
        if is_zero a.connected then start a got else (a.connected, close_fd got))

unfoldable pub close : TcpClientEpoll → TcpClientEpoll
unfolding close_fd close_epfd
close c =
    if not c.is_open
    then c
    else if c.asyn
    then record (close_fd (close_epfd (record c { stop_epoll = true }))) { is_open = false }
    else record (close_fd c) { is_open = false }

unfoldable pub is_close : TcpClientEpoll → Bool
is_close c = not c.is_open

-- One call of `tcp_epoll_cb` of the thread: for each event whether it is an input, and what the
-- handler returns.
unfoldable pub tcp_epoll_cb : List (Bool × ℤ) → TcpClientEpoll → TcpClientEpoll
unfolding close
tcp_epoll_cb [] c = c
tcp_epoll_cb ((is_in, ret) ∷ events) c =
    tcp_epoll_cb events (if is_in && not (is_zero ret) then close c else c)

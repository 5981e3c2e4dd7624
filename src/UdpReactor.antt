-- ===== src/UdpReactor.antt =====
-- src/UdpReactor.cpp: one socket whose datagrams go to a handler for each client. A handler is
-- known by a number, as the source has pointers. What the system calls and `renew` give is a part
-- of each event, and the calls of handlers are a log, newest first.
pub mod Protocol
pub mod Delivery
pub mod Runs
pub mod Descriptors
use cpplib.Prelude.{
  ℕ, ℤ, pos, negsuc, eq_ℤ, ltb_ℤ, Bool, true, false, not, ◌&&◌, Option, none, some, List, [], ◌∷◌,
  ◌++◌, ◌==◌, ltb, if◌then◌else◌, Text, text_key, take, sub_u32,
}
use cpplib.Decimal.{to_string}
use cpplib.OrderedMap

-- `renews` is the creation of a handler for a client, and `deletes` its end.
pub data Call : Type 0 where
  renews : ℕ → Text → ℕ → Call
  inputs : ℕ → Text → ℕ → Text → Call
  closes : ℕ → Text → ℕ → Call
  deletes : ℕ → Call

-- `closed` are the descriptors that `close` was called on, newest first.
pub record UdpReactor : Type 0 where
  pub handlers : List (Text × ℕ)
  pub fd : ℤ
  pub epfd : ℤ
  pub epoll_size : ℕ
  pub buf_size : ℕ
  pub log : List Call
  pub closed : List ℤ

abbrev pub initial : ℕ → UdpReactor
initial buf_size = record {
  handlers = [];
  fd = negsuc 0;
  epfd = negsuc 0;
  epoll_size = 0;
  buf_size = buf_size;
  log = [];
  closed = [];
}

-- `recvfrom` failed, or `inet_ntop` did, or a datagram came from an address and a port.
pub data Received : Type 0 where
  nothing : Received
  unreadable : Received
  datagram : Text → ℕ → Text → Received

-- An event of `epoll_wait`: its descriptor and flag, what `recvfrom` would give, and `renew`.
pub record Event : Type 0 where
  pub fd : ℤ
  pub is_in : Bool
  pub received : Received
  pub renewed : ℕ

-- What `epoll_wait` returned: events, none at a timeout, or an errno.
pub data Waited : Type 0 where
  ready : List Event → Waited
  broken : ℕ → Waited

unfoldable pub client_id : Text → ℕ → Text
client_id ip port = ip ++ b'_' ∷ to_string port

-- A datagram of no bytes.
unfoldable pub close_client : Text → ℕ → UdpReactor → UdpReactor
close_client ip port r = elim (OrderedMap.find (client_id ip port) r.handlers) [
  | none ↦ r
  | some h ↦ record r {
    handlers = OrderedMap.erase (client_id ip port) r.handlers;
    log = deletes h ∷ closes h ip port ∷ r.log;
  }
]

unfoldable pub input_client : Text → ℕ → Text → ℕ → UdpReactor → UdpReactor
input_client ip port buf renewed r = elim (OrderedMap.find (client_id ip port) r.handlers) [
  | none ↦ record r {
    handlers = OrderedMap.insert (client_id ip port) renewed r.handlers;
    log = inputs renewed ip port buf ∷ renews renewed ip port ∷ r.log;
  }
  | some h ↦ record r { log = inputs h ip port buf ∷ r.log }
]

abbrev pub is_empty : Text → Bool
is_empty [] = true
is_empty (c ∷ s) = false

-- `recvfrom` stores at most `_buf_size - 1` bytes, and drops the others of the datagram.
unfoldable pub receive : Received → ℕ → UdpReactor → UdpReactor
unfolding close_client input_client
receive nothing renewed r = r
receive unreadable renewed r = r
receive (datagram ip port bytes) renewed r =
    let buf = take (sub_u32 r.buf_size 1) bytes in
    if is_empty buf then close_client ip port r else input_client ip port buf renewed r

-- The loop of `svc`: only the first event of the socket is served.
unfoldable pub svc_loop : List Event → UdpReactor → UdpReactor
unfolding receive
svc_loop [] r = r
svc_loop (e ∷ events) r =
    let rest = svc_loop events r in
    if e.is_in && eq_ℤ r.fd e.fd then receive e.received e.renewed r else rest

-- `none` is `abort`, and 4 is `EINTR`.
unfoldable pub svc : Waited → UdpReactor → Option UdpReactor
unfolding svc_loop
svc (ready events) r = some (svc_loop events r)
svc (broken errno) r = if errno == 4 then some r else none

unfoldable pub epoller_create : ℕ → ℤ → UdpReactor → ℤ × UdpReactor
epoller_create epoll_size epfd r =
    if eq_ℤ epfd (negsuc 0)
    then (negsuc 0, record r { epfd = epfd })
    else (pos 0, record r { epfd = epfd; epoll_size = epoll_size })

-- The results of `socket`, `bind` and `epoll_ctl`.
unfoldable pub do_bind : ℤ → ℤ → ℤ → UdpReactor → ℤ × UdpReactor
do_bind fd bind_ret ctl_ret r =
    if ltb_ℤ fd (pos 0)
    then (fd, record r { fd = fd })
    else if not (eq_ℤ bind_ret (pos 0))
    then (bind_ret, record r { fd = fd; closed = fd ∷ r.closed })
    else if not (eq_ℤ ctl_ret (pos 0))
    then (ctl_ret, record r { fd = fd; closed = fd ∷ r.closed })
    else (ctl_ret, record r { fd = fd })

-- The results of the system calls of `do_init`, in their order: `getrlimit` with the limit, and
-- those of `epoll_create`, `socket`, `bind` and `epoll_ctl`.
pub record Results : Type 0 where
  pub rlimit_ret : ℤ
  pub rlim_cur : ℕ
  pub epfd : ℤ
  pub fd : ℤ
  pub bind_ret : ℤ
  pub ctl_ret : ℤ

-- `args` has the wanted `epoll_size`.
unfoldable pub do_init : Option ℕ → Results → UdpReactor → ℤ × UdpReactor
unfolding epoller_create do_bind
do_init none s r = (negsuc 0, r)
do_init (some epoll_size) s r =
    if not (eq_ℤ s.rlimit_ret (pos 0))
    then (s.rlimit_ret, r)
    else let created =
        epoller_create (if ltb epoll_size s.rlim_cur then epoll_size else s.rlim_cur) s.epfd r in
      if not (eq_ℤ created.0 (pos 0)) then created else do_bind s.fd s.bind_ret s.ctl_ret created.1

-- `none` is undefined: the iterator is used after its entry has been erased.
unfoldable pub release : UdpReactor → Option UdpReactor
release r = elim r.handlers [
  | [] ↦ some (record r { epfd = negsuc 0; closed = r.fd ∷ r.epfd ∷ r.closed })
  | entry ∷ rest ↦ none
]

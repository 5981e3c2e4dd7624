-- ===== src/SimpleTcpBase/Sockets.antt =====
-- src/SimpleTcpBase.cpp but for `WriteData`: the calls that make, use and close a socket. What the
-- system calls return is an argument.
pub mod Opening
use cpplib.Prelude.{
  ℕ, ℤ, pos, negsuc, ltb_ℤ, eq_ℤ, Bool, true, false, ◌||◌, Option, none, some, List, [], ◌∷◌,
  if◌then◌else◌,
}
use cpplib.TcpReactor.{remove}

-- `opened` are the sockets that the object has made and not closed, newest first.
pub record SimpleTcpBase : Type 0 where
  pub sockfd : ℤ
  pub opened : List ℤ

abbrev pub constructed : SimpleTcpBase
constructed = record { sockfd = negsuc 0; opened = [] }

abbrev pub is_error : ℤ → Bool
is_error ret = eq_ℤ ret (negsuc 0)

-- The results of `socket` and `setsockopt`.
unfoldable pub init_tcp_client : ℤ → ℤ → SimpleTcpBase → ℤ × SimpleTcpBase
unfolding remove
init_tcp_client fd opt_ret t =
    if is_error fd
    then (negsuc 0, record t { sockfd = fd })
    else if is_error opt_ret
    then (negsuc 0, record t { sockfd = negsuc 0; opened = remove fd (fd ∷ t.opened) })
    else (pos 0, record { sockfd = fd; opened = fd ∷ t.opened })

-- The results of `socket`, `setsockopt` and `bind`; that of `listen` is not looked at.
unfoldable pub init_tcp_server : ℤ → ℤ → ℤ → ℤ → SimpleTcpBase → ℤ × SimpleTcpBase
unfolding remove
init_tcp_server fd opt_ret bind_ret listen_ret t =
    if is_error fd
    then (negsuc 0, t)
    else if is_error opt_ret
    then (negsuc 0, record t { opened = remove fd (fd ∷ t.opened) })
    else if is_error bind_ret
    then (negsuc 0, record t { opened = remove fd (fd ∷ t.opened) })
    else (pos 0, record { sockfd = fd; opened = fd ∷ t.opened })

-- The new socket belongs to the caller.
unfoldable pub accept : ℤ → SimpleTcpBase → ℤ
accept client_sock t =
    if ltb_ℤ t.sockfd (pos 0)
    then negsuc 0
    else if is_error client_sock
    then negsuc 0
    else client_sock

unfoldable pub connect : ℤ → SimpleTcpBase → ℤ
connect ret t =
    if ltb_ℤ t.sockfd (pos 0) then negsuc 0 else if is_error ret then negsuc 0 else pos 0

-- `ReadData` on a descriptor of the caller, with the result of `recv`.
unfoldable pub read_data_fd : ℤ → ℤ → ℤ
read_data_fd fd len = if ltb_ℤ fd (pos 0) then negsuc 0 else len

unfoldable pub read_data : ℤ → SimpleTcpBase → ℤ
read_data len t = if ltb_ℤ t.sockfd (pos 0) then negsuc 0 else len

-- The descriptor that is closed, and what is left: `sockfd` keeps its value.
unfoldable pub disconnect : SimpleTcpBase → Option ℤ × SimpleTcpBase
unfolding remove
disconnect t =
    if ltb_ℤ (pos 0) t.sockfd
    then (some t.sockfd, record t { opened = remove t.sockfd t.opened })
    else (none, t)

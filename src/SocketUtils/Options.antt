-- ===== src/SocketUtils/Options.antt =====
-- The methods of src/SocketUtils.cpp that set a descriptor up. What the system calls return is an
-- argument; the state is what the kernel keeps for the descriptor.
pub mod Flags
use cpplib.Prelude.{
  ℕ, ℤ, pos, negsuc, ltb_ℤ, eq_ℤ, Bool, true, false, Option, none, some, List, [], ◌∷◌,
  if◌then◌else◌, Text,
}

-- A word of flags, by the bits that the methods know: bit 0, which is `FD_CLOEXEC` in the flags of
-- a descriptor and a part of the access mode in those of a file, `O_NONBLOCK`, and the others.
pub record FlagWord : Type 0 where
  pub bit_zero : Bool
  pub nonblock : Bool
  pub others : ℕ

-- The options of `setsockopt`; `TCP_NODELAY` and `TCP_QUICKACK` are those of TCP.
pub data SocketOption : Type 0 where
  tcp_nodelay : SocketOption
  tcp_quickack : SocketOption
  so_reuseaddr : SocketOption
  so_keepalive : SocketOption
  so_rcvbuf : SocketOption
  so_sndbuf : SocketOption
  so_rcvtimeo : SocketOption
  so_sndtimeo : SocketOption

-- `status` is what `F_GETFL` reads, and `cloexec` what `F_GETFD` does; `options` is what
-- `setsockopt` was given, newest first.
pub record Descriptor : Type 0 where
  pub status : FlagWord
  pub cloexec : Bool
  pub options : List (SocketOption × ℤ)

-- `fcntl(fd, F_SETFL, flags)` that returned `ret`: of the bits of `flags` it sets `O_NONBLOCK`
-- and others, but leaves the access mode alone.
unfoldable pub set_status : ℤ → FlagWord → Descriptor → Descriptor
set_status ret flags d =
    if ltb_ℤ ret (pos 0)
    then d
    else record d { status = record flags { bit_zero = d.status.bit_zero } }

-- `get_ret` is the result of `F_GETFL`, below 0 or the flags of the descriptor.
unfoldable pub set_non_bolck : ℤ → ℤ → Descriptor → ℤ × Descriptor
unfolding set_status
set_non_bolck get_ret set_ret d =
    if ltb_ℤ get_ret (pos 0)
    then (negsuc 0, d)
    else let after = set_status set_ret (record d.status { nonblock = true }) d in
      if ltb_ℤ set_ret (pos 0) then (negsuc 1, after) else (pos 0, after)

unfoldable pub set_bolck : ℤ → ℤ → Descriptor → ℤ × Descriptor
unfolding set_status
set_bolck get_ret set_ret d =
    if ltb_ℤ get_ret (pos 0)
    then (negsuc 0, d)
    else let after = set_status set_ret (record d.status { nonblock = false }) d in
      if ltb_ℤ set_ret (pos 0) then (negsuc 1, after) else (pos 0, after)

unfoldable pub set_closeonexec : ℤ → ℤ → Descriptor → ℤ × Descriptor
unfolding set_status
set_closeonexec get_ret set_ret d =
    if ltb_ℤ get_ret (pos 0)
    then (negsuc 0, d)
    else let after = set_status set_ret (record d.status { bit_zero = true }) d in
      if ltb_ℤ set_ret (pos 0) then (negsuc 1, after) else (pos 0, after)

-- What all methods on options do: `ret` is the result of `setsockopt`.
unfoldable pub set_option : SocketOption → ℤ → ℤ → Descriptor → ℤ × Descriptor
set_option option value ret d =
    if ltb_ℤ ret (pos 0)
    then (negsuc 0, d)
    else (ret, record d { options = (option, value) ∷ d.options })

unfoldable pub set_nodelay : ℤ → Descriptor → ℤ × Descriptor
unfolding set_option
set_nodelay ret d = set_option tcp_nodelay (pos 1) ret d

unfoldable pub set_quickack : ℤ → Descriptor → ℤ × Descriptor
unfolding set_option
set_quickack ret d = set_option tcp_quickack (pos 1) ret d

unfoldable pub set_reuseaddr : ℤ → Descriptor → ℤ × Descriptor
unfolding set_option
set_reuseaddr ret d = set_option so_reuseaddr (pos 1) ret d

unfoldable pub set_keepalive : ℤ → Descriptor → ℤ × Descriptor
unfolding set_option
set_keepalive ret d = set_option so_keepalive (pos 1) ret d

unfoldable pub set_rcvbuf : ℤ → ℤ → Descriptor → ℤ × Descriptor
unfolding set_option
set_rcvbuf size ret d = set_option so_rcvbuf size ret d

unfoldable pub set_sndbuf : ℤ → ℤ → Descriptor → ℤ × Descriptor
unfolding set_option
set_sndbuf size ret d = set_option so_sndbuf size ret d

-- A timeout in seconds.
unfoldable pub set_rcv_timeout : ℤ → ℤ → Descriptor → ℤ × Descriptor
unfolding set_option
set_rcv_timeout timeout ret d = set_option so_rcvtimeo timeout ret d

unfoldable pub set_snd_timeout : ℤ → ℤ → Descriptor → ℤ × Descriptor
unfolding set_option
set_snd_timeout timeout ret d = set_option so_sndtimeo timeout ret d

-- `getsockname` and `getpeername` with the address that they give: the caller's `ip` and `port`
-- change only with the result 0.
unfoldable pub get_local_socket : ℤ → Text × ℕ → Text × ℕ → ℤ × Text × ℕ
get_local_socket ret name before =
    if eq_ℤ ret (pos 0) then (ret, name.0, name.1) else (ret, before.0, before.1)

unfoldable pub get_remote_socket : ℤ → Text × ℕ → Text × ℕ → ℤ × Text × ℕ
get_remote_socket ret name before =
    if eq_ℤ ret (pos 0) then (ret, name.0, name.1) else (ret, before.0, before.1)

-- `connect_s` hands the result of `::connect` on, and does not use its timeout.
unfoldable pub connect_s : ℕ → ℤ → ℤ
connect_s timeout ret = ret

-- ===== src/UdpClient.antt =====
-- src/UdpClient.cpp, with the descriptors and peers that the kernel holds for it. What the system
-- calls return is an argument.
pub mod Sessions
use cpplib.Prelude.{
  ℕ, ℤ, pos, negsuc, eq_ℤ, ltb_ℤ, Bool, true, false, not, Option, none, some, List, [], ◌∷◌,
  if◌then◌else◌, Text,
}

-- A descriptor of the process, and whether `::connect` has given it a peer.
pub record Socket : Type 0 where
  pub fd : ℤ
  pub has_peer : Bool

-- `opened` are the sockets that the client made and has not closed, newest first.
pub record UdpClient : Type 0 where
  pub fd : ℤ
  pub is_connected : Bool
  pub is_closed : Bool
  pub ip : Text
  pub port : ℕ
  pub opened : List Socket

abbrev pub initial : UdpClient
initial = record {
  fd = negsuc 0;
  is_connected = false;
  is_closed = true;
  ip = [];
  port = 0;
  opened = [];
}

-- `fd` is the result of `socket`, and `ret` that of `::connect`, if it is called.
unfoldable pub connect : Text → ℕ → Bool → ℤ → ℤ → UdpClient → ℤ × UdpClient
connect ip port doconnect fd ret c =
    if ltb_ℤ fd (pos 0)
    then (fd, record c { fd = fd })
    else if not doconnect
    then (
      pos 0,
      record c {
        fd = fd;
        ip = ip;
        port = port;
        is_closed = false;
        opened = record { fd = fd; has_peer = false } ∷ c.opened;
      },
    )
    else if eq_ℤ ret (pos 0)
    then (
      ret,
      record c {
        fd = fd;
        ip = ip;
        port = port;
        is_closed = false;
        is_connected = true;
        opened = record { fd = fd; has_peer = true } ∷ c.opened;
      },
    )
    else (ret, record c { fd = fd; opened = record { fd = fd; has_peer = false } ∷ c.opened })

-- The address that `::sendto` gets: NULL, or one of its own.
pub data Destination : Type 0 where
  peer : Destination
  address : Text → ℕ → Destination

-- The result, and what `::sendto` was called with, if it was: a descriptor and a destination.
unfoldable pub sendto : ℤ → UdpClient → ℤ × Option (ℤ × Destination)
sendto ret c =
    if c.is_closed
    then (negsuc 0, none)
    else if c.is_connected
    then (ret, some (c.fd, peer))
    else (ret, some (c.fd, address c.ip c.port))

-- The result, and the descriptor that `::recvfrom` was called with.
unfoldable pub recvfrom : ℤ → UdpClient → ℤ × Option ℤ
recvfrom ret c = if c.is_closed then (negsuc 0, none) else (ret, some c.fd)

unfoldable pub without : ℤ → List Socket → List Socket
without fd [] = []
without fd (s ∷ sockets) = let rest = without fd sockets in if eq_ℤ s.fd fd then rest else s ∷ rest

unfoldable pub close : UdpClient → UdpClient
unfolding without
close c = if c.is_closed then c else record c { is_closed = true; opened = without c.fd c.opened }

unfoldable pub is_close : UdpClient → Bool
is_close c = c.is_closed

-- ===== src/TcpClientEpoll/Traffic.antt =====
-- What a client of src/ConnMgt/TcpClientEpoll.cpp sends and receives, by src/SocketUtils.cpp.
use cpplib.Prelude.{
  ℕ, ◌<◌, ◌^◌, ℤ, negsuc, true, false, not, Option, some, List, [], Text, length, if◌then◌else◌,
  ◌≡◌, refl, arith,
}
use cpplib.SocketUtils
use cpplib.SocketUtils.{Outcome, send_n}
use cpplib.SocketUtils.Send.{Fits, IsSent, send_n_sends}
use cpplib.TcpClientEpoll.{TcpClientEpoll, close, close_fd, close_epfd}

module _ (timeout begin_usec : ℕ) where
  -- The results are the code, the caller's `len` and the bytes; `len` is the size of the buffer
  -- before the call.
  unfoldable pub send : Text → List (Outcome ℕ × ℕ) → TcpClientEpoll → Option (ℤ × ℕ × Text)
  send buf rounds c =
      if not c.is_open
      then some (negsuc 0, length buf, [])
      else send_n timeout begin_usec buf rounds

  unfoldable pub rcv : ℕ → List (Outcome Text × ℕ) → TcpClientEpoll → Option (ℤ × ℕ × Text)
  rcv size rounds c =
      if not c.is_open
      then some (negsuc 0, size, [])
      else if not c.asyn
      then SocketUtils.recv timeout begin_usec size rounds
      else some (negsuc 1, size, [])

  close_shuts : (c : TcpClientEpoll) → (close c).is_open ≡ false
  unfolding close close_fd close_epfd
  close_shuts c = ground arith

  -- Of an open client `send` sends what `send_n` promises; behind `close` both methods return -1,
  -- and no byte moves.
  pub send-close :
      (buf : Text) (size : ℕ) (rounds : List (Outcome ℕ × ℕ)) (chunks : List (Outcome Text × ℕ))
      (c : TcpClientEpoll)
      → c.is_open ≡ true
      → length buf < 2 ^ 32
      → Fits rounds (length buf)
      → IsSent buf (send buf rounds c)
        × (send buf rounds (close c) ≡ some (negsuc 0, length buf, []))
        × (rcv size chunks (close c) ≡ some (negsuc 0, size, []))
  unfolding send rcv
  send-close buf size rounds chunks c opened small fits = (
    rw opened (send_n_sends buf small timeout begin_usec rounds fits),
    rw (close_shuts c) refl,
    rw (close_shuts c) refl,
  )

-- ===== src/UdpClient/Sessions.antt =====
-- What the clients of src/UdpClient.cpp do over several calls.
use cpplib.Prelude.{
  ℕ, ℤ, pos, eq_ℤ, eq_ℤ_iff, ltb_ℤ, Bool, true, false, some, List, [], ◌∷◌, Text, ◌≡◌, refl, ◌⊎◌,
  inl, inr,
}
use cpplib.UdpClient.{UdpClient, initial, connect, peer, sendto, without, close}

-- A client that has connected keeps `_connect` for good: behind a `close` and a `connect` to
-- another address with `doconnect` false, both true, `sendto` still gives no address, though the
-- new socket has no peer. The datagram goes nowhere.
pub stale_connect :
    (ip ip' : Text) (port port' : ℕ) (fd fd' ret : ℤ)
    → ltb_ℤ fd (pos 0) ≡ false
    → ltb_ℤ fd' (pos 0) ≡ false
    → let first = (connect ip port true fd (pos 0) initial).1 in
      let (code, c) = connect ip' port' false fd' (pos 0) (close first) in
      (code ≡ pos 0)
      × (sendto ret c ≡ (ret, some (fd', peer)))
      × (c.opened ≡ record { fd = fd'; has_peer = false } ∷ [])
unfolding connect close sendto without
stale_connect ip ip' port port' fd fd' ret h k =
    let own : eq_ℤ fd fd ≡ true = (eq_ℤ_iff fd fd).1 refl in rw (h, k, own) (refl, refl, refl)

-- A `connect` that fails leaves its socket open, and where the client was closed `close` does not
-- close it either; otherwise the result is that of the call that failed.
pub failed_connect_leaks :
    (ip : Text) (port : ℕ) (fd ret : ℤ) (c : UdpClient)
    → ltb_ℤ fd (pos 0) ≡ false
    → eq_ℤ ret (pos 0) ≡ false
    → c.is_closed ≡ true
    → let (code, d) = connect ip port true fd ret c in
      (code ≡ ret) × ((close d).opened ≡ record { fd = fd; has_peer = false } ∷ c.opened)
unfolding connect close
failed_connect_leaks ip port fd ret c h k closed = rw (h, k, closed) (refl, refl)

pub data Op : Type 0 where
  connects : Text → ℕ → Bool → ℤ → ℤ → Op
  closes : Op

unfoldable pub apply : UdpClient → Op → UdpClient
unfolding connect close
apply c (connects ip port doconnect fd ret) = (connect ip port doconnect fd ret c).1
apply c closes = close c

unfoldable pub run : UdpClient → List Op → UdpClient
run c [] = c
run c (op ∷ ops) = run (apply c op) ops

-- A client connects only while it is closed, and the calls succeed.
abbrev pub Succeeds : UdpClient → Op → Type 0
Succeeds c (connects ip port doconnect fd ret) =
    (c.is_closed ≡ true) × (ltb_ℤ fd (pos 0) ≡ false) × (eq_ℤ ret (pos 0) ≡ true)
Succeeds c closes = Unit

abbrev pub AllSucceed : UdpClient → List Op → Type 0
AllSucceed c [] = Unit
AllSucceed c (op ∷ ops) = Succeeds c op × AllSucceed (apply c op) ops

-- A closed client has no socket, and an open one has the one that it uses.
abbrev pub HoldsOne : UdpClient → Type 0
HoldsOne c =
    ((c.is_closed ≡ true) × (c.opened ≡ []))
    ⊎ ((c.is_closed ≡ false)
        × ((has_peer : Bool) × (c.opened ≡ record { fd = c.fd; has_peer = has_peer } ∷ [])))

without-own :
    (fd : ℤ) (has_peer : Bool) → without fd (record { fd = fd; has_peer = has_peer } ∷ []) ≡ []
unfolding without
without-own fd has_peer = let own : eq_ℤ fd fd ≡ true = (eq_ℤ_iff fd fd).1 refl in rw own refl

close-HoldsOne : (c : UdpClient) → HoldsOne c → HoldsOne (close c)
unfolding close
close-HoldsOne c (inl (closed, none_open)) = rw (closed, close) (inl (refl, none_open))
close-HoldsOne c (inr (open_yet, (has_peer, one))) =
    rw (open_yet, close) (inl (refl, rw one (without-own c.fd has_peer)))

connect-HoldsOne :
    (ip : Text) (port : ℕ) (doconnect : Bool) (fd ret : ℤ) (c : UdpClient)
    → Succeeds c (connects ip port doconnect fd ret)
    → HoldsOne c
    → HoldsOne (connect ip port doconnect fd ret c).1
unfolding connect
connect-HoldsOne ip port doconnect fd ret c (closed, made, ok) (inr (open_yet, _)) = absurd cc
connect-HoldsOne ip port true fd ret c (closed, made, ok) (inl (_, none_open)) =
    rw (made, ok, connect) (inr (refl, (true, rw none_open refl)))
connect-HoldsOne ip port false fd ret c (closed, made, ok) (inl (_, none_open)) =
    rw (made, connect) (inr (refl, (false, rw none_open refl)))

apply-HoldsOne : (c : UdpClient) (op : Op) → Succeeds c op → HoldsOne c → HoldsOne (apply c op)
unfolding apply
apply-HoldsOne c (connects ip port doconnect fd ret) s h =
    connect-HoldsOne ip port doconnect fd ret c s h
apply-HoldsOne c closes s h = close-HoldsOne c h

run_from : (ops : List Op) (c : UdpClient) → AllSucceed c ops → HoldsOne c → HoldsOne (run c ops)
unfolding run
run_from [] c s h = h
run_from (op ∷ ops) c s h = run_from ops (apply c op) s.1 (apply-HoldsOne c op s.0 h)

-- Over any calls of `connect` and `close` from a new client on, where it connects only while it is
-- closed and each system call succeeds: it has no socket while it is closed, and just the one
-- that it sends on while it is open.
pub run-HoldsOne : (ops : List Op) → AllSucceed initial ops → HoldsOne (run initial ops)
run-HoldsOne ops s = run_from ops initial s (inl (refl, refl))

-- ===== src/TcpReactor.antt =====
-- src/TcpReactor.cpp and src/EventHandler.h: the dispatch of events to handlers. A handler is
-- known by a number, as the source has pointers. What the system calls and the handlers return is
-- a part of each event, and the calls of handlers are a log, newest first.
pub mod Protocol
pub mod Setup
pub mod Runs
use cpplib.Prelude.{
  ℕ, ℤ, pos, ltb_ℤ, eq_ℤ, Bool, true, false, not, ◌&&◌, ◌||◌, Option, none, some, List, [], ◌∷◌,
  if◌then◌else◌,
}
use cpplib.TMapInt

-- A call of a handler for a descriptor; `accepts` has whether the result was 0. `deletes` is no
-- call: `del_fd` does not tell the handler.
pub data Call : Type 0 where
  accepts : Bool → ℕ → ℤ → Call
  inputs : ℕ → ℤ → Call
  outputs : ℕ → ℤ → Call
  exceptions : ℕ → ℤ → Call
  closes : ℕ → ℤ → Call
  deletes : ℤ → Call

-- `opened` are the descriptors of connections, and `watched` those added to epoll.
pub record TcpReactor : Type 0 where
  pub handlers : List (ℤ × ℕ)
  pub listen_fd : ℤ
  pub opened : List ℤ
  pub watched : List ℤ
  pub log : List Call

-- An event of `epoll_wait`: its descriptor and flags, what `accept` and `renew` would return,
-- what the handler returns, and whether `epoll_ctl` succeeds.
pub record Event : Type 0 where
  pub fd : ℤ
  pub is_out : Bool
  pub is_in : Bool
  pub is_pri : Bool
  pub conn_fd : ℤ
  pub renewed : ℕ
  pub ret : ℤ
  pub is_added : Bool

unfoldable pub has : ℤ → List ℤ → Bool
has fd [] = false
has fd (f ∷ fds) = eq_ℤ f fd || has fd fds

unfoldable pub remove : ℤ → List ℤ → List ℤ
remove fd [] = []
remove fd (f ∷ fds) = let rest = remove fd fds in if eq_ℤ f fd then rest else f ∷ rest

-- A call for a descriptor that has a handler.
unfoldable pub with_handler : (ℕ → TcpReactor → TcpReactor) → ℤ → TcpReactor → TcpReactor
with_handler f fd r = elim (TMapInt.get fd r.handlers).1 [ none ↦ r | some h ↦ f h r ]

unfoldable pub called : Call → TcpReactor → TcpReactor
called call r = record r { log = call ∷ r.log }

-- The event of a new connection.
unfoldable pub accept : Event → TcpReactor → TcpReactor
accept e r =
    if ltb_ℤ e.conn_fd (pos 0)
    then r
    else if eq_ℤ e.ret (pos 0)
    then record r {
      opened = e.conn_fd ∷ r.opened;
      watched = if e.is_added then e.conn_fd ∷ r.watched else r.watched;
      handlers = TMapInt.insert e.conn_fd e.renewed r.handlers;
      log = accepts true e.renewed e.conn_fd ∷ r.log;
    }
    else record r { log = accepts false e.renewed e.conn_fd ∷ r.log }

-- Out of epoll and closed, and the handler out of the map.
unfoldable pub drop_fd : ℤ → Call → TcpReactor → TcpReactor
drop_fd fd call r = record r {
  opened = remove fd r.opened;
  watched = remove fd r.watched;
  handlers = TMapInt.del fd r.handlers;
  log = call ∷ r.log;
}

unfoldable pub input : Event → ℕ → TcpReactor → TcpReactor
unfolding called drop_fd
input e h r =
    if eq_ℤ e.ret (pos 0)
    then called (inputs h e.fd) r
    else drop_fd e.fd (closes h e.fd) (called (inputs h e.fd) r)

-- One round of the loop of `svc`.
unfoldable pub handle : TcpReactor → Event → TcpReactor
unfolding with_handler accept input called
handle r e =
    if e.is_out
    then with_handler (λ h. called (outputs h e.fd)) e.fd r
    else if e.is_in
    then (if eq_ℤ r.listen_fd e.fd then accept e r else with_handler (input e) e.fd r)
    else if e.is_pri
    then with_handler (λ h. called (exceptions h e.fd)) e.fd r
    else r

-- `svc` on the events of one `epoll_wait`, none if it was interrupted.
unfoldable pub svc : List Event → TcpReactor → TcpReactor
unfolding handle
svc [] r = r
svc (e ∷ events) r = svc events (handle r e)

unfoldable pub del_fd : ℤ → TcpReactor → TcpReactor
unfolding drop_fd
del_fd fd r = drop_fd fd (deletes fd) r

-- ===== src/SessionMgt/Shared.antt =====
-- The methods of src/SessionMgt/SessionMgt.cpp by their accesses to the counter and the two maps, called by
-- threads in any interleaving under the mutex of the object. The loop of `check` is one access.
pub mod Histories
use cpplib.Prelude.{
  Option, none, some, List, [], ◌∷◌, ◌++◌, ℤ, ℕ, Text, text_key, int_key, Bool, true, false, ◌≡◌,
  refl, inl, inr, Option-cases, arith,
}
use cpplib.Decimal.{to_string}
use cpplib.OrderedMap
use cpplib.TimeStamp.{to_u64, to_useconds}
use cpplib.SessionMgt
use cpplib.SessionMgt.{
  Session, SessionMgt, gen_uid, new_session, insert_session, remove_session, is_valid_sesssion,
  get_fd, change, update_read_id, set_client_id, get_client_id,
}
use cpplib.SessionMgt.Calls
use cpplib.SessionMgt.Calls.{
  Call, inserts, removes, sets_status, reads, writes, sets_client, checks,
}
use cpplib.ThreadMutex.{Access, Next, goes_on, returns, quiet}
use cpplib.ThreadMutex.Serial.{rest_of}

-- What a method gives its caller.
pub data Reply : Type 0 where
  nothing : Reply
  an_id : Option Text → Reply
  a_result : Bool → Reply
  an_fd : Option ℤ → Reply
  a_client : Bool × Option ℕ → Reply

-- The next access of a thread: the first one of a method; `_sessions[fd]` and `_fds[id]` of
-- `insert_session`; the two `erase` of `remove_session`; the change of a session that was found; and the
-- end of the scope of the guard.
pub data Pc : Type 0 where
  calling : Call → Pc
  validating : Text → Pc
  locating : Text → Pc
  asking : Text → Pc
  placing : ℤ → Session → Pc
  indexing : ℤ → Text → Pc
  unindexing : ℤ → Text → Pc
  dropping : ℤ → Text → Pc
  updating : Call → Pc
  setting : ℤ → ℕ → Pc
  asking_client : ℤ → Pc
  leaving : Reply → Pc

abbrev pub IsMethod : Pc → Type 0
IsMethod (calling call) = Unit
IsMethod (validating id) = Unit
IsMethod (locating id) = Unit
IsMethod (asking id) = Unit
IsMethod (placing fd session) = ⊥
IsMethod (indexing fd id) = ⊥
IsMethod (unindexing fd id) = ⊥
IsMethod (dropping fd id) = ⊥
IsMethod (updating call) = ⊥
IsMethod (setting fd client) = ⊥
IsMethod (asking_client fd) = ⊥
IsMethod (leaving given) = ⊥

abbrev pub at : SessionMgt → Pc → Access SessionMgt Pc Reply
at mgt p = record { object = mgt; signal = quiet; next = goes_on p }

-- The id that `update_read` gives.
abbrev pub reply : Call → SessionMgt → Reply
reply (reads fd num ts) mgt = an_id (update_read_id fd mgt)
reply (inserts fd ip port ts) mgt = nothing
reply (removes fd) mgt = nothing
reply (sets_status fd status) mgt = nothing
reply (writes fd num ts) mgt = nothing
reply (sets_client id client) mgt = nothing
reply (checks ts) mgt = nothing

-- Where `find` leads a method that changes the session of `fd`.
abbrev pub looks : ℤ → Call → Reply → SessionMgt → Access SessionMgt Pc Reply
looks fd call missing mgt = elim (OrderedMap.find fd mgt.sessions) [
  | none ↦ at mgt (leaving missing)
  | some session ↦ at mgt (updating call)
]

unfoldable pub access : Pc → SessionMgt → Access SessionMgt Pc Reply
access (calling (inserts fd ip port ts)) mgt =
    let (uid, id) = gen_uid mgt.uid (ip ++ b'_' ∷ to_string port) (to_u64 ts.seconds) in
    at (record mgt { uid = uid }) (placing fd (new_session id fd ip port (to_u64 (to_useconds ts))))
access (calling (removes fd)) mgt = elim (OrderedMap.find fd mgt.sessions) [
  | none ↦ at mgt (leaving (an_id none))
  | some session ↦ at mgt (unindexing fd session.id)
]
access (calling (sets_status fd status)) mgt = looks fd (sets_status fd status) nothing mgt
access (calling (reads fd num ts)) mgt = looks fd (reads fd num ts) (an_id none) mgt
access (calling (writes fd num ts)) mgt = looks fd (writes fd num ts) nothing mgt
access (calling (sets_client id client)) mgt = elim (OrderedMap.find id mgt.fds) [
  | none ↦ at mgt (leaving (a_result false))
  | some fd ↦ at mgt (setting fd client)
]
access (calling (checks ts)) mgt = at (SessionMgt.check ts mgt) (leaving nothing)
access (validating id) mgt = at mgt (leaving (a_result (is_valid_sesssion id mgt)))
access (locating id) mgt = at mgt (leaving (an_fd (get_fd id mgt)))
access (asking id) mgt = elim (OrderedMap.find id mgt.fds) [
  | none ↦ at mgt (leaving (a_client (false, none)))
  | some fd ↦ at mgt (asking_client fd)
]
access (placing fd session) mgt =
    at (record mgt { sessions = OrderedMap.assign fd session mgt.sessions })
      (indexing fd session.id)
access (indexing fd id) mgt =
    at (record mgt { fds = OrderedMap.assign id fd mgt.fds }) (leaving (an_id (some id)))
access (unindexing fd id) mgt =
    at (record mgt { fds = OrderedMap.erase id mgt.fds }) (dropping fd id)
access (dropping fd id) mgt =
    at (record mgt { sessions = OrderedMap.erase fd mgt.sessions }) (leaving (an_id (some id)))
access (updating call) mgt = at (Calls.step mgt call) (leaving (reply call mgt))
access (setting fd client) mgt =
    at (change fd (λ s. record s { client_id = client }) mgt) (leaving (a_result true))
access (asking_client fd) mgt = elim (OrderedMap.find fd mgt.sessions) [
  | none ↦ at mgt (leaving (a_client (true, none)))
  | some s ↦ at mgt (leaving (a_client (true, some s.client_id)))
]
access (leaving given) mgt = record { object = mgt; signal = quiet; next = returns given }

-- The turns, by the methods on whole managers.
unfoldable pub turn : Pc → SessionMgt → SessionMgt × Next Pc Reply
turn (calling (inserts fd ip port ts)) mgt =
    let (after, id) = insert_session fd ip port ts mgt in (after, returns (an_id (some id)))
turn (calling (removes fd)) mgt =
    let (after, id) = remove_session fd mgt in (after, returns (an_id id))
turn (calling (sets_status fd status)) mgt =
    (SessionMgt.update_status fd status mgt, returns nothing)
turn (calling (reads fd num ts)) mgt =
    (SessionMgt.update_read fd num ts mgt, returns (an_id (update_read_id fd mgt)))
turn (calling (writes fd num ts)) mgt = (SessionMgt.update_write fd num ts mgt, returns nothing)
turn (calling (sets_client id client)) mgt =
    let (after, result) = set_client_id id client mgt in (after, returns (a_result result))
turn (calling (checks ts)) mgt = (SessionMgt.check ts mgt, returns nothing)
turn (validating id) mgt = (mgt, returns (a_result (is_valid_sesssion id mgt)))
turn (locating id) mgt = (mgt, returns (an_fd (get_fd id mgt)))
turn (asking id) mgt = (mgt, returns (a_client (get_client_id id mgt)))
turn (placing fd session) mgt = (
  record mgt {
    sessions = OrderedMap.assign fd session mgt.sessions;
    fds = OrderedMap.assign session.id fd mgt.fds;
  },
  returns (an_id (some session.id)),
)
turn (indexing fd id) mgt =
    (record mgt { fds = OrderedMap.assign id fd mgt.fds }, returns (an_id (some id)))
turn (unindexing fd id) mgt = (
  record mgt { fds = OrderedMap.erase id mgt.fds; sessions = OrderedMap.erase fd mgt.sessions },
  returns (an_id (some id)),
)
turn (dropping fd id) mgt =
    (record mgt { sessions = OrderedMap.erase fd mgt.sessions }, returns (an_id (some id)))
turn (updating call) mgt = (Calls.step mgt call, returns (reply call mgt))
turn (setting fd client) mgt =
    (change fd (λ s. record s { client_id = client }) mgt, returns (a_result true))
turn (asking_client fd) mgt = elim (OrderedMap.find fd mgt.sessions) [
  | none ↦ (mgt, returns (a_client (true, none)))
  | some s ↦ (mgt, returns (a_client (true, some s.client_id)))
]
turn (leaving given) mgt = (mgt, returns given)

pub unrolls :
    (p : Pc) (mgt : SessionMgt)
    → turn p mgt ≡ rest_of turn (access p mgt).object (access p mgt).next
unfolding turn access Calls.step insert_session remove_session change update_read_id set_client_id
    get_client_id new_session SessionMgt.update_status SessionMgt.update_read
    SessionMgt.update_write OrderedMap.find
unrolls (calling (inserts fd ip port ts)) mgt = refl
unrolls (calling (removes fd)) mgt = elim (Option-cases (OrderedMap.find fd mgt.sessions)) [
  | inl e ↦ ground (arith, e)
  | inr (s, e) ↦ ground (arith, e)
]
unrolls (calling (sets_status fd status)) mgt =
    elim (Option-cases (OrderedMap.find fd mgt.sessions)) [
      | inl e ↦ ground (arith, e)
      | inr (s, e) ↦ ground (arith, e)
    ]
unrolls (calling (reads fd num ts)) mgt = elim (Option-cases (OrderedMap.find fd mgt.sessions)) [
  | inl e ↦ ground (arith, e)
  | inr (s, e) ↦ ground (arith, e)
]
unrolls (calling (writes fd num ts)) mgt = elim (Option-cases (OrderedMap.find fd mgt.sessions)) [
  | inl e ↦ ground (arith, e)
  | inr (s, e) ↦ ground (arith, e)
]
unrolls (calling (sets_client id client)) mgt = elim (Option-cases (OrderedMap.find id mgt.fds)) [
  | inl e ↦ ground (arith, e)
  | inr (fd, e) ↦ ground (arith, e)
]
unrolls (calling (checks ts)) mgt = refl
unrolls (validating id) mgt = refl
unrolls (locating id) mgt = refl
unrolls (asking id) mgt = elim (Option-cases (OrderedMap.find id mgt.fds)) [
  | inl e ↦ ground (arith, e)
  | inr (fd, e) ↦ elim (Option-cases (OrderedMap.find fd mgt.sessions)) [
    | inl e' ↦ ground (arith, e, e')
    | inr (s, e') ↦ ground (arith, e, e')
  ]
]
unrolls (placing fd session) mgt = refl
unrolls (indexing fd id) mgt = refl
unrolls (unindexing fd id) mgt = refl
unrolls (dropping fd id) mgt = refl
unrolls (updating call) mgt = refl
unrolls (setting fd client) mgt = refl
unrolls (asking_client fd) mgt = elim (Option-cases (OrderedMap.find fd mgt.sessions)) [
  | inl e ↦ ground (arith, e)
  | inr (s, e) ↦ ground (arith, e)
]
unrolls (leaving given) mgt = refl

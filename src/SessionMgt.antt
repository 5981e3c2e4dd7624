-- ===== src/SessionMgt.antt =====
-- src/SessionMgt/Session.h and src/SessionMgt/SessionMgt.cpp: the sessions of the TCP server by
-- descriptor, and the descriptors by session id. Each method runs under the mutex. The clock and
-- the peer's address, from `getpeername`, are arguments.
pub mod Uid
pub mod Invariant
pub mod Check
pub mod Calls
pub mod Timer
pub mod Shared
use cpplib.Prelude.{
  Bool, true, false, Option, none, some, List, [], ◌∷◌, ◌++◌, ℤ, pos, negsuc, ℕ, suc, ◌+◌, ◌-◌, ◌%◌,
  ◌^◌, u64, sub_u64, Text, codes, text_key, int_key, if◌then◌else◌, ltb,
}
use cpplib.Decimal.{to_string}
use cpplib.OrderedMap
use cpplib.TimeStamp.{to_u64, TimeStamp, to_useconds}

pub record Session : Type 0 where
  pub id : Text
  pub client_id : ℕ
  pub fd : ℤ
  pub ip : Text
  pub port : ℕ
  pub status : Bool
  pub create_time : ℕ
  pub access_time : ℕ
  pub close_time : ℕ
  pub r_num : ℕ
  pub w_num : ℕ

pub record SessionMgt : Type 0 where
  pub sessions : List (ℤ × Session)
  pub fds : List (Text × ℤ)
  pub uid : ℕ

abbrev pub tcp_idle_timeout : ℕ
tcp_idle_timeout = 60_000_000

unfoldable pub init : SessionMgt
init = record { sessions = []; fds = []; uid = 0 }

-- The new counter and the id: prefix, seconds and counter.
unfoldable pub gen_uid : ℕ → Text → ℕ → ℕ × Text
gen_uid uid prefix second =
    let next = u64 (uid + 1) in (next, prefix ++ b'_' ∷ (to_string second ++ b'_' ∷ to_string next))

unfoldable pub new_session : Text → ℤ → Text → ℕ → ℕ → Session
new_session id fd ip port now = record {
  id = id;
  client_id = 0;
  fd = fd;
  ip = ip;
  port = port;
  status = true;
  create_time = now;
  access_time = now;
  close_time = 0;
  r_num = 0;
  w_num = 0;
}

-- The caller gets the id.
unfoldable pub insert_session : ℤ → Text → ℕ → TimeStamp → SessionMgt → SessionMgt × Text
insert_session fd ip port ts mgt =
    let (uid, id) = gen_uid mgt.uid (ip ++ b'_' ∷ to_string port) (to_u64 ts.seconds) in
    let session = new_session id fd ip port (to_u64 (to_useconds ts)) in
    (
      record {
        sessions = OrderedMap.assign fd session mgt.sessions;
        fds = OrderedMap.assign id fd mgt.fds;
        uid = uid;
      },
      id,
    )

-- The id of the session that goes, where there is one.
unfoldable pub remove_session : ℤ → SessionMgt → SessionMgt × Option Text
remove_session fd mgt = elim (OrderedMap.find fd mgt.sessions) [
  | none ↦ (mgt, none)
  | some session ↦ (
    record mgt {
      fds = OrderedMap.erase session.id mgt.fds;
      sessions = OrderedMap.erase fd mgt.sessions;
    },
    some session.id,
  )
]

unfoldable pub is_valid_sesssion : Text → SessionMgt → Bool
is_valid_sesssion id mgt = elim (OrderedMap.find id mgt.fds) [ none ↦ false | some _ ↦ true ]

-- `none` for the result false.
unfoldable pub get_fd : Text → SessionMgt → Option ℤ
get_fd id mgt = OrderedMap.find id mgt.fds

-- A change of the session of a descriptor, if there is one.
unfoldable pub change : ℤ → (Session → Session) → SessionMgt → SessionMgt
change fd f mgt = elim (OrderedMap.find fd mgt.sessions) [
  | none ↦ mgt
  | some session ↦ record mgt { sessions = OrderedMap.replace fd (f session) mgt.sessions }
]

unfoldable pub update_status : ℤ → Bool → SessionMgt → SessionMgt
unfolding change
update_status fd status = change fd (λ s. record s { status = status })

-- `now` is the reading of the clock in microseconds.
unfoldable pub read_more : ℕ → ℕ → Session → Session
read_more num now s =
    if s.status then record s { access_time = now; r_num = u64 (s.r_num + num) } else s

unfoldable pub written_more : ℕ → ℕ → Session → Session
written_more num now s =
    if s.status then record s { access_time = now; w_num = u64 (s.w_num + num) } else s

unfoldable pub update_read : ℤ → ℕ → TimeStamp → SessionMgt → SessionMgt
unfolding change read_more
update_read fd num ts = change fd (read_more num (to_u64 (to_useconds ts)))

unfoldable pub update_write : ℤ → ℕ → TimeStamp → SessionMgt → SessionMgt
unfolding change written_more
update_write fd num ts = change fd (written_more num (to_u64 (to_useconds ts)))

-- The id that `update_read` writes to its caller.
unfoldable pub update_read_id : ℤ → SessionMgt → Option Text
update_read_id fd mgt = elim (OrderedMap.find fd mgt.sessions) [
  | none ↦ none
  | some s ↦ if s.status then some s.id else none
]

unfoldable pub set_client_id : Text → ℕ → SessionMgt → SessionMgt × Bool
unfolding change
set_client_id id client_id mgt = elim (OrderedMap.find id mgt.fds) [
  | none ↦ (mgt, false)
  | some fd ↦ (change fd (λ s. record s { client_id = client_id }) mgt, true)
]

-- The result, and the client id where one is written.
unfoldable pub get_client_id : Text → SessionMgt → Bool × Option ℕ
get_client_id id mgt = elim (OrderedMap.find id mgt.fds) [
  | none ↦ (false, none)
  | some fd ↦ elim (OrderedMap.find fd mgt.sessions) [
    | none ↦ (true, none)
    | some s ↦ (true, some s.client_id)
  ]
]

-- The time since the last access, as an unsigned number.
abbrev pub is_idle : ℕ → Session → Bool
is_idle now s = ltb tcp_idle_timeout (sub_u64 now s.access_time)

-- The walk of `check` over the sessions from an iterator on: those that stay, and the index.
unfoldable pub check_loop :
    ℕ → List (ℤ × Session) → List (Text × ℤ) → List (ℤ × Session) × List (Text × ℤ)
check_loop now [] fds = ([], fds)
check_loop now ((fd, s) ∷ sessions) fds =
    let (kept, index) =
      check_loop now sessions (if is_idle now s then OrderedMap.erase s.id fds else fds) in
    ((if is_idle now s then kept else (fd, s) ∷ kept), index)

unfoldable pub check : TimeStamp → SessionMgt → SessionMgt
unfolding check_loop
check curts mgt =
    let (sessions, fds) = check_loop (to_u64 (to_useconds curts)) mgt.sessions mgt.fds in
    record mgt { sessions = sessions; fds = fds }

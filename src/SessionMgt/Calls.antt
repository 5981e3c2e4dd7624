-- ===== src/SessionMgt/Calls.antt =====
-- Histories of calls of src/SessionMgt/SessionMgt.cpp.
use cpplib.Prelude.{
  ℕ, ◌+◌, ◌≤◌, ◌<◌, ◌^◌, ◌≡◌, ◌≢◌, refl, List, [], ◌∷◌, Text, arith, Bool, true, some, ℤ, text_key,
  int_key, text_eq_iff, eq_ℤ_iff, Option-cases, inl, inr, length, ◌++◌,
}
use cpplib.OrderedMap
use cpplib.OrderedMap.{find}
use cpplib.OrderedMap.Laws.{find-assign}
use cpplib.Decimal.{to_string}
use cpplib.TimeStamp.{to_u64, TimeStamp, to_useconds}
use cpplib.SessionMgt.{
  Session, SessionMgt, init, insert_session, remove_session, change, update_status, update_read,
  update_write, set_client_id, check, gen_uid, read_more, written_more, new_session,
  is_valid_sesssion, get_fd,
}
use cpplib.SessionMgt.Uid.{gen_uid_counts, gen_uid-ne}
use cpplib.SessionMgt.Invariant.{
  IsConsistent, init-IsConsistent, insert_session-IsConsistent, remove_session-IsConsistent,
  change-IsConsistent,
}
use cpplib.SessionMgt.Check.{check-IsConsistent}

-- The methods that write, with the readings and addresses that they meet.
pub data Call : Type 0 where
  inserts : ℤ → Text → ℕ → TimeStamp → Call
  removes : ℤ → Call
  sets_status : ℤ → Bool → Call
  reads : ℤ → ℕ → TimeStamp → Call
  writes : ℤ → ℕ → TimeStamp → Call
  sets_client : Text → ℕ → Call
  checks : TimeStamp → Call

unfoldable pub step : SessionMgt → Call → SessionMgt
step mgt (inserts fd ip port ts) = (insert_session fd ip port ts mgt).0
step mgt (removes fd) = (remove_session fd mgt).0
step mgt (sets_status fd status) = update_status fd status mgt
step mgt (reads fd num ts) = update_read fd num ts mgt
step mgt (writes fd num ts) = update_write fd num ts mgt
step mgt (sets_client id client) = (set_client_id id client mgt).0
step mgt (checks ts) = check ts mgt

unfoldable pub run : SessionMgt → List Call → SessionMgt
run mgt [] = mgt
run mgt (c ∷ calls) = run (step mgt c) calls

change_uid : (fd : ℤ) (f : Session → Session) (mgt : SessionMgt) → (change fd f mgt).uid ≡ mgt.uid
unfolding change
change_uid fd f mgt = elim (Option-cases (find fd mgt.sessions)) [
  | inl e ↦ rw (e, change)
  | inr (s, e) ↦ rw (e, change)
]

read_more_keeps :
    (num now : ℕ) (s : Session)
    → ((read_more num now s).id ≡ s.id) × ((read_more num now s).fd ≡ s.fd)
unfolding read_more
read_more_keeps num now s = ground arith

written_more_keeps :
    (num now : ℕ) (s : Session)
    → ((written_more num now s).id ≡ s.id) × ((written_more num now s).fd ≡ s.fd)
unfolding written_more
written_more_keeps num now s = ground arith

remove_uid : (fd : ℤ) (mgt : SessionMgt) → (remove_session fd mgt).0.uid ≡ mgt.uid
unfolding remove_session
remove_uid fd mgt = elim (Option-cases (find fd mgt.sessions)) [
  | inl e ↦ rw (e, remove_session)
  | inr (s, e) ↦ rw (e, remove_session)
]

set_client_uid :
    (id : Text) (client : ℕ) (mgt : SessionMgt) → (set_client_id id client mgt).0.uid ≡ mgt.uid
unfolding set_client_id
set_client_uid id client mgt = elim (Option-cases (find id mgt.fds)) [
  | inl e ↦ rw (e, set_client_id)
  | inr (fd, e) ↦ rw (e, set_client_id) (change_uid fd (λ s. record s { client_id = client }) mgt)
]

set_client_id-IsConsistent :
    (id : Text) (client : ℕ) (mgt : SessionMgt)
    → IsConsistent mgt
    → IsConsistent (set_client_id id client mgt).0
unfolding set_client_id
set_client_id-IsConsistent id client mgt v = elim (Option-cases (find id mgt.fds)) [
  | inl e ↦ rw (e, set_client_id) v
  | inr (fd, e) ↦
      rw (e, set_client_id)
        (change-IsConsistent fd (λ s. record s { client_id = client }) mgt (λ s. (refl, refl)) v)
]

step_uid : (mgt : SessionMgt) (c : Call) → mgt.uid + 1 < 2 ^ 64 → (step mgt c).uid ≤ mgt.uid + 1
unfolding step insert_session update_status update_read update_write check
step_uid mgt (inserts fd ip port ts) h =
    omega (arith, gen_uid_counts mgt.uid (ip ++ b'_' ∷ to_string port) (to_u64 ts.seconds) h)
step_uid mgt (removes fd) h = omega (arith, remove_uid fd mgt)
step_uid mgt (sets_status fd status) h =
    omega (arith, change_uid fd (λ s. record s { status = status }) mgt)
step_uid mgt (reads fd num ts) h =
    omega (arith, change_uid fd (read_more num (to_u64 (to_useconds ts))) mgt)
step_uid mgt (writes fd num ts) h =
    omega (arith, change_uid fd (written_more num (to_u64 (to_useconds ts))) mgt)
step_uid mgt (sets_client id client) h = omega (arith, set_client_uid id client mgt)
step_uid mgt (checks ts) h = omega arith

step-IsConsistent :
    (mgt : SessionMgt) (c : Call)
    → mgt.uid + 1 < 2 ^ 64
    → IsConsistent mgt
    → IsConsistent (step mgt c)
unfolding step update_status update_read update_write
step-IsConsistent mgt (inserts fd ip port ts) h v =
    insert_session-IsConsistent fd ip port ts mgt v h
step-IsConsistent mgt (removes fd) h v = remove_session-IsConsistent fd mgt v
step-IsConsistent mgt (sets_status fd status) h v =
    change-IsConsistent fd _ mgt (λ s. (refl, refl)) v
step-IsConsistent mgt (reads fd num ts) h v = change-IsConsistent fd _ mgt (read_more_keeps num _) v
step-IsConsistent mgt (writes fd num ts) h v =
    change-IsConsistent fd _ mgt (written_more_keeps num _) v
step-IsConsistent mgt (sets_client id client) h v = set_client_id-IsConsistent id client mgt v
step-IsConsistent mgt (checks ts) h v = check-IsConsistent ts mgt v

run_from :
    (mgt : SessionMgt) (calls : List Call)
    → mgt.uid + length calls < 2 ^ 64
    → IsConsistent mgt
    → IsConsistent (run mgt calls)
unfolding run
run_from mgt [] h v = v
run_from mgt (c ∷ calls) h v =
    run_from (step mgt c) calls (omega (arith, step_uid mgt c))
      (step-IsConsistent mgt c (omega arith) v)

init_uid : init.uid ≡ 0
unfolding init
init_uid = refl

-- After any history of less than 2 ^ 64 calls on a new manager the two maps agree: each session
-- stands under its own descriptor, its id leads to that descriptor, and every id in the index has
-- a count that was given out.
pub run-IsConsistent : (calls : List Call) → length calls < 2 ^ 64 → IsConsistent (run init calls)
run-IsConsistent calls h = run_from init calls (omega (arith, init_uid)) init-IsConsistent

-- `insert_session` on a descriptor that has a session replaces that session and leaves its id in
-- the index: the old id stays valid, and leads to the descriptor of the new session.
pub insert_session_stale :
    (fd : ℤ) (ip : Text) (port : ℕ) (ts : TimeStamp) (mgt : SessionMgt) (old : Session)
    → IsConsistent mgt
    → mgt.uid + 1 < 2 ^ 64
    → find fd mgt.sessions ≡ some old
    → let (after, id) = insert_session fd ip port ts mgt in
      (id ≢ old.id)
      × (is_valid_sesssion old.id after ≡ true)
      × (get_fd old.id after ≡ some fd)
      × (find fd after.sessions ≡ some (new_session id fd ip port (to_u64 (to_useconds ts))))
unfolding insert_session is_valid_sesssion get_fd
insert_session_stale fd ip port ts mgt old v room there =
    let id = (gen_uid mgt.uid (ip ++ b'_' ∷ to_string port) (to_u64 ts.seconds)).1 in
    let ne : id ≢ old.id =
      gen_uid-ne mgt.uid _ old.id _ room (v.numbered old.id fd (v.indexed fd old there)) in
    let left : find old.id (OrderedMap.assign id fd mgt.fds) ≡ some fd =
      ground
        (arith, find-assign id old.id fd mgt.fds, text_eq_iff id old.id, v.indexed fd old there) in
    (
      ne,
      ground (arith, left),
      left,
      ground (
        arith,
        find-assign fd fd (new_session id fd ip port (to_u64 (to_useconds ts))) mgt.sessions,
        eq_ℤ_iff fd fd,
      ),
    )

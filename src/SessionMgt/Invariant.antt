-- ===== src/SessionMgt/Invariant.antt =====
-- The two maps of src/SessionMgt/SessionMgt.cpp agree, over every method but `check`.
use cpplib.Prelude.{
  ℕ, ◌+◌, ◌<◌, ◌^◌, ◌≡◌, sym, ◌∷◌, ◌++◌, Text, arith, false, some, ℤ, text_key, int_key, text_eq,
  text_eq_iff, eq_ℤ_iff, Option-cases, Bool-cases, inl, inr, subst,
}
use cpplib.OrderedMap
use cpplib.OrderedMap.{find}
use cpplib.OrderedMap.Laws.{find-assign, find-erase, assign-found, erase-found, replace-found}
use cpplib.OrderedMap.Order.{
  IsAscending, assign-IsAscending, erase-IsAscending, replace-IsAscending,
}
use cpplib.Decimal.{to_string}
use cpplib.TimeStamp.{to_u64, TimeStamp, to_useconds}
use cpplib.SessionMgt.{
  Session, SessionMgt, init, insert_session, remove_session, change, gen_uid, new_session,
}
use cpplib.SessionMgt.Uid.{IsNumbered, gen_uid-IsNumbered, gen_uid-ne, gen_uid_counts}

-- Every session stands under its own descriptor, and its id leads back to that descriptor; every
-- id in the index was given out by the counter.
pub record IsConsistent (mgt : SessionMgt) : Type 0 where
  pub own_fd : (fd : ℤ) (s : Session) → find fd mgt.sessions ≡ some s → s.fd ≡ fd
  pub indexed : (fd : ℤ) (s : Session) → find fd mgt.sessions ≡ some s → find s.id mgt.fds ≡ some fd
  pub numbered : (id : Text) (fd : ℤ) → find id mgt.fds ≡ some fd → IsNumbered mgt.uid id
  pub ascending : IsAscending mgt.sessions

pub init-IsConsistent : IsConsistent init
unfolding init find
init-IsConsistent = record {
  own_fd = λ fd s e. cc;
  indexed = λ fd s e. cc;
  numbered = λ id fd e. absurd cc;
  ascending = tt;
}

IsNumbered-suc : (uid : ℕ) (id : Text) → IsNumbered uid id → IsNumbered (uid + 1) id
IsNumbered-suc uid id (p, k, le, e) = (p, k, omega arith, e)

module _ (fd : ℤ) (ip : Text) (port : ℕ) (ts : TimeStamp) (mgt : SessionMgt) (v : IsConsistent mgt)
    (room : mgt.uid + 1 < 2 ^ 64) where
  abbrev new_id : Text
  new_id = (gen_uid mgt.uid (ip ++ b'_' ∷ to_string port) (to_u64 ts.seconds)).1

  fresh : (id : Text) (j : ℤ) → find id mgt.fds ≡ some j → text_eq new_id id ≡ false
  fresh id j e = elim (Bool-cases (text_eq new_id id)) [
    | inl same ↦
        absurd (gen_uid-ne mgt.uid _ id _ room (v.numbered id j e) ((text_eq_iff new_id id).0 same))
    | inr ne ↦ ne
  ]

  abbrev fresh_session : Session
  fresh_session = new_session new_id fd ip port (to_u64 (to_useconds ts))

  insert_own_fd :
      (j : ℤ) (s : Session)
      → find j (OrderedMap.assign fd fresh_session mgt.sessions) ≡ some s
      → s.fd ≡ j
  unfolding new_session
  insert_own_fd j s e = elim (assign-found fd j fresh_session s mgt.sessions e) [
    | inl (same, new) ↦ ground (arith, same, new)
    | inr (ne, old) ↦ v.own_fd j s old
  ]

  insert_indexed :
      (j : ℤ) (s : Session)
      → find j (OrderedMap.assign fd fresh_session mgt.sessions) ≡ some s
      → find s.id (OrderedMap.assign new_id fd mgt.fds) ≡ some j
  unfolding new_session
  insert_indexed j s e = elim (assign-found fd j fresh_session s mgt.sessions e) [
    | inl (same, new) ↦
        rw (← new)
          (ground (arith, same, find-assign new_id new_id fd mgt.fds, text_eq_iff new_id new_id))
    | inr (ne, old) ↦ ground (
      arith,
      find-assign new_id s.id fd mgt.fds,
      v.indexed j s old,
      fresh s.id j (v.indexed j s old),
    )
  ]

  insert-IsNumbered :
      (id : Text) (j : ℤ)
      → find id (OrderedMap.assign new_id fd mgt.fds) ≡ some j
      → IsNumbered (mgt.uid + 1) id
  insert-IsNumbered id j e = elim (assign-found new_id id fd j mgt.fds e) [
    | inl (same, new) ↦ subst (IsNumbered (mgt.uid + 1)) same (gen_uid-IsNumbered mgt.uid _ _ room)
    | inr (ne, old) ↦ IsNumbered-suc mgt.uid id (v.numbered id j old)
  ]

  -- A new session under any descriptor keeps the maps in agreement, as long as the counter does
  -- not wrap.
  pub insert_session-IsConsistent : IsConsistent (insert_session fd ip port ts mgt).0
  unfolding insert_session
  insert_session-IsConsistent = record {
    own_fd = insert_own_fd;
    indexed = insert_indexed;
    numbered = λ id j e.
        subst (λ u. IsNumbered u id) (sym (gen_uid_counts mgt.uid _ _ room))
          (insert-IsNumbered id j e);
    ascending = assign-IsAscending fd _ mgt.sessions v.ascending;
  }

module _ (fd : ℤ) (s : Session) (mgt : SessionMgt) (v : IsConsistent mgt)
    (there : find fd mgt.sessions ≡ some s) where
  abbrev removed : SessionMgt
  removed = record mgt {
    fds = OrderedMap.erase s.id mgt.fds;
    sessions = OrderedMap.erase fd mgt.sessions;
  }

  removed_indexed :
      (j : ℤ) (r : Session)
      → find j (OrderedMap.erase fd mgt.sessions) ≡ some r
      → find r.id (OrderedMap.erase s.id mgt.fds) ≡ some j
  removed_indexed j r e =
      let (ne, old) = erase-found fd j r mgt.sessions e in
      ground (
        arith,
        ne,
        v.indexed j r old,
        v.indexed fd s there,
        find-erase s.id r.id mgt.fds,
        text_eq_iff s.id r.id,
        eq_ℤ_iff fd j,
      )

  removed-IsConsistent : IsConsistent removed
  removed-IsConsistent = record {
    own_fd = λ j r e. v.own_fd j r (erase-found fd j r mgt.sessions e).1;
    indexed = removed_indexed;
    numbered = λ id j e. v.numbered id j (erase-found s.id id j mgt.fds e).1;
    ascending = erase-IsAscending fd mgt.sessions v.ascending;
  }

pub remove_session-IsConsistent :
    (fd : ℤ) (mgt : SessionMgt) → IsConsistent mgt → IsConsistent (remove_session fd mgt).0
unfolding remove_session
remove_session-IsConsistent fd mgt v = elim (Option-cases (find fd mgt.sessions)) [
  | inl e ↦ rw (e, remove_session) v
  | inr (s, e) ↦ rw (e, remove_session) (removed-IsConsistent fd s mgt v e)
]

-- A change of a session that keeps its id and descriptor.
pub change-IsConsistent :
    (fd : ℤ) (f : Session → Session) (mgt : SessionMgt)
    → ((s : Session) → ((f s).id ≡ s.id) × ((f s).fd ≡ s.fd))
    → IsConsistent mgt
    → IsConsistent (change fd f mgt)
unfolding change
change-IsConsistent fd f mgt keeps v = elim (Option-cases (find fd mgt.sessions)) [
  | inl e ↦ rw (e, change) v
  | inr (s, e) ↦
      rw (e, change)
        (record {
          own_fd = λ j r h. elim (replace-found fd j s (f s) r mgt.sessions e h) [
            | inl (same, new) ↦ ground (arith, same, new, keeps s, v.own_fd fd s e)
            | inr (ne, old) ↦ v.own_fd j r old
          ];
          indexed = λ j r h. elim (replace-found fd j s (f s) r mgt.sessions e h) [
            | inl (same, new) ↦ rw (← new) (rw (keeps s).0 (rw (← same) (v.indexed fd s e)))
            | inr (ne, old) ↦ v.indexed j r old
          ];
          numbered = v.numbered;
          ascending = replace-IsAscending fd (f s) mgt.sessions v.ascending;
        })
]

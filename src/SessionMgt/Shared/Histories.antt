-- ===== src/SessionMgt/Shared/Histories.antt =====
-- The sessions of src/SessionMgt/SessionMgt.cpp under threads.
use cpplib.Prelude.{
  none, List, [], ◌∷◌, ◌++◌, ℕ, ◌<◌, ◌≤◌, ◌^◌, length, length-append, All, ◌≡◌, refl, sym, ◌∙◌, ap,
  subst, arith, Option-cases, inl, inr, ℤ, int_key, text_key,
}
use cpplib.SessionMgt.{SessionMgt, init}
use cpplib.SessionMgt.Calls.{
  Call, inserts, removes, sets_status, reads, writes, sets_client, checks, step, run,
  run-IsConsistent,
}
use cpplib.SessionMgt.Invariant.{IsConsistent}
use cpplib.SessionMgt.Shared.{
  Pc, calling, validating, locating, asking, placing, indexing, unindexing, dropping, updating,
  setting, asking_client, leaving, Reply, IsMethod, access, turn, unrolls, looks,
}
use cpplib.OrderedMap
use cpplib.ThreadMutex.{Next, System, Reach, Turns}
use cpplib.ThreadMutex.Serial.{IsReplay, turns_serial}
use cpplib.ThreadMutex.Entries.{IsBack, Reach-IsEntered}

-- The call of a turn, if it is one of those that write.
abbrev pub call_of : Pc → List Call
call_of (calling call) = call ∷ []
call_of _ = []

-- The calls of the turns, oldest first.
abbrev pub calls_of : Turns Pc Reply → List Call
calls_of [] = []
calls_of ((i, p, next) ∷ log) = calls_of log ++ call_of p

turn-run : (p : Pc) (mgt : SessionMgt) → IsMethod p → (turn p mgt).0 ≡ run mgt (call_of p)
unfolding turn run step
turn-run (calling (inserts fd ip port ts)) mgt h = refl
turn-run (calling (removes fd)) mgt h = refl
turn-run (calling (sets_status fd status)) mgt h = refl
turn-run (calling (reads fd num ts)) mgt h = refl
turn-run (calling (writes fd num ts)) mgt h = refl
turn-run (calling (sets_client id client)) mgt h = refl
turn-run (calling (checks ts)) mgt h = refl
turn-run (validating id) mgt h = refl
turn-run (locating id) mgt h = refl
turn-run (asking id) mgt h = refl
turn-run (placing fd session) mgt h = absurd h
turn-run (indexing fd id) mgt h = absurd h
turn-run (unindexing fd id) mgt h = absurd h
turn-run (dropping fd id) mgt h = absurd h
turn-run (updating call) mgt h = absurd h
turn-run (setting fd client) mgt h = absurd h
turn-run (asking_client fd) mgt h = absurd h
turn-run (leaving given) mgt h = absurd h

run-append : (mgt : SessionMgt) (xs ys : List Call) → run mgt (xs ++ ys) ≡ run (run mgt xs) ys
unfolding run
run-append mgt [] ys = refl
run-append mgt (c ∷ xs) ys = run-append (step mgt c) xs ys

replay-run :
    (origin mgt : SessionMgt) (log : Turns Pc Reply)
    → IsReplay turn origin log mgt
    → All (λ (t : ℕ × Pc × Next Pc Reply). IsMethod t.1) log
    → mgt ≡ run origin (calls_of log)
unfolding run
replay-run origin mgt [] e v = e
replay-run origin mgt ((i, p, next) ∷ log) (before, replay, e) (own, v) =
    sym (ap (λ (r : SessionMgt × Next Pc Reply). r.0) e)
    ∙ turn-run p before own
    ∙ ap (λ (m : SessionMgt). run m (call_of p)) (replay-run origin before log replay v)
    ∙ sym (run-append origin (calls_of log) (call_of p))

call_of_most : (p : Pc) → length (call_of p) ≤ 1
call_of_most p = ground arith

length-calls : (log : Turns Pc Reply) → length (calls_of log) ≤ length log
length-calls [] = omega arith
length-calls ((i, p, next) ∷ log) =
    omega (arith, length-calls log, call_of_most p, length-append (calls_of log) (call_of p))

looks-IsBack :
    (fd : ℤ) (call : Call) (missing : Reply) (mgt : SessionMgt)
    → IsBack IsMethod (looks fd call missing mgt).next
looks-IsBack fd call missing mgt = elim (Option-cases (OrderedMap.find fd mgt.sessions)) [
  | inl e ↦ rw (e, IsBack) tt
  | inr (s, e) ↦ rw (e, IsBack) tt
]

-- No method waits.
access-IsBack : (p : Pc) (mgt : SessionMgt) → IsBack IsMethod (access p mgt).next
unfolding access OrderedMap.find
access-IsBack (calling (inserts fd ip port ts)) mgt = tt
access-IsBack (calling (removes fd)) mgt = elim (Option-cases (OrderedMap.find fd mgt.sessions)) [
  | inl e ↦ rw (e, IsBack) tt
  | inr (s, e) ↦ rw (e, IsBack) tt
]
access-IsBack (calling (sets_status fd status)) mgt = looks-IsBack fd (sets_status fd status) _ mgt
access-IsBack (calling (reads fd num ts)) mgt = looks-IsBack fd (reads fd num ts) _ mgt
access-IsBack (calling (writes fd num ts)) mgt = looks-IsBack fd (writes fd num ts) _ mgt
access-IsBack (calling (sets_client id client)) mgt =
    elim (Option-cases (OrderedMap.find id mgt.fds)) [
      | inl e ↦ rw (e, IsBack) tt
      | inr (fd, e) ↦ rw (e, IsBack) tt
    ]
access-IsBack (calling (checks ts)) mgt = tt
access-IsBack (validating id) mgt = tt
access-IsBack (locating id) mgt = tt
access-IsBack (asking id) mgt = elim (Option-cases (OrderedMap.find id mgt.fds)) [
  | inl e ↦ rw (e, IsBack) tt
  | inr (fd, e) ↦ rw (e, IsBack) tt
]
access-IsBack (placing fd session) mgt = tt
access-IsBack (indexing fd id) mgt = tt
access-IsBack (unindexing fd id) mgt = tt
access-IsBack (dropping fd id) mgt = tt
access-IsBack (updating call) mgt = tt
access-IsBack (setting fd client) mgt = tt
access-IsBack (asking_client fd) mgt = elim (Option-cases (OrderedMap.find fd mgt.sessions)) [
  | inl e ↦ rw (e, IsBack) tt
  | inr (s, e) ↦ rw (e, IsBack) tt
]
access-IsBack (leaving given) mgt = tt

-- In every interleaving of the accesses of any number of threads that call the methods of one
-- manager: while the mutex is free, and as long as less than 2 ^ 64 calls have returned, the manager
-- is what its calls make of a new one, one after another in the order in which the threads took the
-- mutex, and its two maps agree: each session stands under its own descriptor, its id leads to that
-- descriptor, and every id in the index has a count that was given out.
pub sessions_shared :
    (s : System SessionMgt Pc Reply)
    → Reach access IsMethod init s
    → s.mutex ≡ none
    → length s.log < 2 ^ 64
    → (s.object ≡ run init (calls_of s.log)) × IsConsistent s.object
sessions_shared s r open_mutex h =
    let (alone, replay) =
      turns_serial access IsMethod turn unrolls init 0 0 (validating []) (validating [])
        (validating []) (validating []) r in
    let e =
      replay-run init s.object s.log (replay open_mutex)
        (Reach-IsEntered access IsMethod IsMethod (λ p m. m) access-IsBack r) in
    (
      e,
      subst IsConsistent (sym e)
          (run-IsConsistent (calls_of s.log) (omega (arith, h, length-calls s.log))),
    )

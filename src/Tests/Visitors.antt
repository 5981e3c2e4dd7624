-- ===== src/Tests/Visitors.antt =====
-- Two threads on one SessionMgt, an access at a time.
use cpplib.Prelude.{
  ◌+ℤ◌, ◌*ℤ◌, update, ℕ, pos, Option, none, some, [], ◌∷◌, Text, codes, ◌≡◌, refl, arith,
}
use cpplib.Decimal.{to_string}
use cpplib.TimeStamp.{TimeStamp, to_useconds}
use cpplib.OrderedMap
use cpplib.SessionMgt
use cpplib.SessionMgt.{SessionMgt}
use cpplib.SessionMgt.Calls.{inserts, removes, run}
use cpplib.SessionMgt.Invariant.{IsConsistent}
use cpplib.SessionMgt.Shared.{
  Pc, calling, placing, indexing, unindexing, dropping, leaving, Reply, an_id, access, IsMethod,
}
use cpplib.SessionMgt.Shared.Histories.{calls_of, sessions_shared}
use cpplib.ThreadMutex.{
  returns, Place, outside, locking, inside, Turns, calls, locks, accesses, Reach, start, later,
  unheard,
}

abbrev time : TimeStamp
time = record { seconds = pos 5; micro_seconds = pos 0 }

abbrev inserting : Pc
inserting = calling (inserts (pos 7) (codes "a") 80 time)

abbrev removing : Pc
removing = calling (removes (pos 7))

abbrev Run : Option ℕ → SessionMgt → (ℕ → Place Pc) → Turns Pc Reply → Type 0
Run mutex mgt place log =
    Reach access IsMethod SessionMgt.init
      (record { mutex = mutex; object = mgt; place = place; log = log })

abbrev mgt0 : SessionMgt
mgt0 = SessionMgt.init

abbrev place0 : ℕ → Place Pc
place0 i = outside

abbrev id : Text
id = codes "a_80_5_1"

abbrev session : SessionMgt.Session
session = SessionMgt.new_session id (pos 7) (codes "a") 80 5_000_000

abbrev inserted_log : Turns Pc Reply
inserted_log = (0, inserting, returns (an_id (some id))) ∷ []

abbrev removed_log : Turns Pc Reply
removed_log = (1, removing, returns (an_id (some id))) ∷ inserted_log

abbrev place1 : ℕ → Place Pc
place1 = update place0 0 (locking inserting)

run1 : Run none mgt0 place1 []
run1 = later start (calls 0 inserting refl tt)

abbrev place2 : ℕ → Place Pc
place2 = update place1 1 (locking removing)

run2 : Run none mgt0 place2 []
run2 = later run1 (calls 1 removing refl tt)

abbrev place3 : ℕ → Place Pc
place3 = update place2 0 (inside inserting inserting)

run3 : Run (some 0) mgt0 place3 []
run3 = later run2 (locks 0 refl refl)

abbrev mgt1 : SessionMgt
mgt1 = (access inserting mgt0).object

abbrev place4 : ℕ → Place Pc
place4 = update place3 0 (inside inserting (placing (pos 7) session))

run4 : Run (some 0) mgt1 place4 []
unfolding access SessionMgt.init SessionMgt.gen_uid SessionMgt.new_session to_string to_useconds
    ◌+ℤ◌ ◌*ℤ◌ OrderedMap.find OrderedMap.assign OrderedMap.erase OrderedMap.place
run4 = later run3 (accesses 0 refl unheard)

abbrev mgt2 : SessionMgt
mgt2 = (access (placing (pos 7) session) mgt1).object

abbrev place5 : ℕ → Place Pc
place5 = update place4 0 (inside inserting (indexing (pos 7) id))

run5 : Run (some 0) mgt2 place5 []
unfolding access SessionMgt.init SessionMgt.gen_uid SessionMgt.new_session to_string to_useconds
    ◌+ℤ◌ ◌*ℤ◌ OrderedMap.find OrderedMap.assign OrderedMap.erase OrderedMap.place
run5 = later run4 (accesses 0 refl unheard)

abbrev mgt3 : SessionMgt
mgt3 = (access (indexing (pos 7) id) mgt2).object

abbrev place6 : ℕ → Place Pc
place6 = update place5 0 (inside inserting (leaving (an_id (some id))))

run6 : Run (some 0) mgt3 place6 []
unfolding access SessionMgt.init SessionMgt.gen_uid SessionMgt.new_session to_string to_useconds
    ◌+ℤ◌ ◌*ℤ◌ OrderedMap.find OrderedMap.assign OrderedMap.erase OrderedMap.place
run6 = later run5 (accesses 0 refl unheard)

abbrev place7 : ℕ → Place Pc
place7 = update place6 0 outside

run7 : Run none mgt3 place7 inserted_log
unfolding access SessionMgt.init SessionMgt.gen_uid SessionMgt.new_session to_string to_useconds
    ◌+ℤ◌ ◌*ℤ◌ OrderedMap.find OrderedMap.assign OrderedMap.erase OrderedMap.place
run7 = later run6 (accesses 0 refl unheard)

abbrev place8 : ℕ → Place Pc
place8 = update place7 1 (inside removing removing)

run8 : Run (some 1) mgt3 place8 inserted_log
run8 = later run7 (locks 1 refl refl)

abbrev mgt4 : SessionMgt
mgt4 = (access removing mgt3).object

abbrev place9 : ℕ → Place Pc
place9 = update place8 1 (inside removing (unindexing (pos 7) id))

run9 : Run (some 1) mgt4 place9 inserted_log
unfolding access SessionMgt.init SessionMgt.gen_uid SessionMgt.new_session to_string to_useconds
    ◌+ℤ◌ ◌*ℤ◌ OrderedMap.find OrderedMap.assign OrderedMap.erase OrderedMap.place
run9 = later run8 (accesses 1 refl unheard)

abbrev mgt5 : SessionMgt
mgt5 = (access (unindexing (pos 7) id) mgt4).object

abbrev place10 : ℕ → Place Pc
place10 = update place9 1 (inside removing (dropping (pos 7) id))

run10 : Run (some 1) mgt5 place10 inserted_log
unfolding access SessionMgt.init SessionMgt.gen_uid SessionMgt.new_session to_string to_useconds
    ◌+ℤ◌ ◌*ℤ◌ OrderedMap.find OrderedMap.assign OrderedMap.erase OrderedMap.place
run10 = later run9 (accesses 1 refl unheard)

abbrev mgt6 : SessionMgt
mgt6 = (access (dropping (pos 7) id) mgt5).object

abbrev place11 : ℕ → Place Pc
place11 = update place10 1 (inside removing (leaving (an_id (some id))))

run11 : Run (some 1) mgt6 place11 inserted_log
unfolding access SessionMgt.init SessionMgt.gen_uid SessionMgt.new_session to_string to_useconds
    ◌+ℤ◌ ◌*ℤ◌ OrderedMap.find OrderedMap.assign OrderedMap.erase OrderedMap.place
run11 = later run10 (accesses 1 refl unheard)

abbrev place12 : ℕ → Place Pc
place12 = update place11 1 outside

run12 : Run none mgt6 place12 removed_log
unfolding access SessionMgt.init SessionMgt.gen_uid SessionMgt.new_session to_string to_useconds
    ◌+ℤ◌ ◌*ℤ◌ OrderedMap.find OrderedMap.assign OrderedMap.erase OrderedMap.place
run12 = later run11 (accesses 1 refl unheard)

sessions_shared_example : (mgt6 ≡ run SessionMgt.init (calls_of removed_log)) × IsConsistent mgt6
sessions_shared_example =
    sessions_shared (record { mutex = none; object = mgt6; place = place12; log = removed_log })
      run12 refl (omega arith)

-- ===== src/Tests/Reactors.antt =====
-- TcpReactor on a concrete run.
use cpplib.Prelude.{ℕ, pos, true, false, List, [], ◌∷◌, ◌≡◌, refl}
use cpplib.TMapInt
use cpplib.OrderedMap
use cpplib.TcpReactor.{
  Event, accepts, inputs, closes, deletes, svc, handle, with_handler, accept, input, called,
  drop_fd, has, remove, del_fd,
}
use cpplib.TcpReactor.Protocol.{IsServing}
use cpplib.TcpReactor.Runs.{
  Step, serves, drops, run, StepsAreFresh, AreFresh, listening, run-IsServing,
}

-- A connection on descriptor 4, whose input fails; then one on the same descriptor, with another
-- handler, which another thread drops.
abbrev connects : ℕ → Event
connects h = record {
  fd = pos 3;
  is_out = false;
  is_in = true;
  is_pri = false;
  conn_fd = pos 4;
  renewed = h;
  ret = pos 0;
  is_added = true;
}

abbrev fails : Event
fails = record {
  fd = pos 4;
  is_out = false;
  is_in = true;
  is_pri = false;
  conn_fd = pos 9;
  renewed = 0;
  ret = pos 1;
  is_added = true;
}

abbrev steps : List Step
steps = serves (connects 7 ∷ fails ∷ []) ∷ serves (connects 8 ∷ []) ∷ drops (pos 4) ∷ []

steps_fresh : StepsAreFresh (listening (pos 3)) steps
unfolding StepsAreFresh AreFresh svc handle with_handler accept input called drop_fd has remove
    del_fd TMapInt.get TMapInt.insert OrderedMap.find OrderedMap.insert OrderedMap.place
steps_fresh = ((refl, (refl, tt)), ((refl, tt), tt))

run-IsServing_example : IsServing (run (listening (pos 3)) steps)
run-IsServing_example = run-IsServing (pos 3) steps steps_fresh

-- The calls, newest first.
run_logs :
    (run (listening (pos 3)) steps).log
    ≡ deletes (pos 4)
      ∷ accepts true 8 (pos 4)
      ∷ closes 7 (pos 4)
      ∷ inputs 7 (pos 4)
      ∷ accepts true 7 (pos 4)
      ∷ []
unfolding run svc handle with_handler accept input called drop_fd del_fd TMapInt.get TMapInt.insert
    TMapInt.del OrderedMap.find OrderedMap.insert OrderedMap.place OrderedMap.erase
run_logs = refl

-- ===== src/Tests/Datagrams.antt =====
-- UdpReactor on a few datagrams.
use cpplib.Prelude.{
  pos, ltb_ℤ, false, true, Option, none, some, List, [], ◌∷◌, codes, text_eq, ◌≡◌, refl,
}
use cpplib.OrderedMap.{find, insert, place, erase}
use cpplib.Decimal.{to_string}
use cpplib.UdpReactor.{
  Results, do_init, UdpReactor, initial, Call, renews, inputs, closes, deletes, Received, nothing,
  datagram, Waited, ready, broken, client_id, svc,
}
use cpplib.UdpReactor.Runs.{run, Serves, arrived_all, udp_run-IsServing}

abbrev at : Received → Waited
at received = ready (record { fd = pos 5; is_in = true; received = received; renewed = 5 } ∷ [])

-- Two datagrams of one client, an interrupt, and its end.
abbrev waits : List Waited
waits =
    at (datagram (codes "10.0.0.1") 80 (codes "hello"))
    ∷ at nothing
    ∷ broken 4
    ∷ at (datagram (codes "10.0.0.1") 80 (codes "you"))
    ∷ at (datagram (codes "10.0.0.1") 80 [])
    ∷ []

-- `do_init` gets the descriptors 4 of epoll and 5 of the socket.
abbrev results : Results
results = record {
  rlimit_ret = pos 0;
  rlim_cur = 1024;
  epfd = pos 4;
  fd = pos 5;
  bind_ret = pos 0;
  ctl_ret = pos 0;
}

inits : (do_init (some 100) results (initial 4)).0 ≡ pos 0
unfolding do_init
inits = refl

udp_run-IsServing_example :
    (ltb_ℤ (pos 5) (pos 0) ≡ false)
    × Serves (arrived_all (pos 5) 4 waits) (run (do_init (some 100) results (initial 4)).1 waits)
udp_run-IsServing_example = udp_run-IsServing 100 4 results waits inits

abbrev log_of : Option UdpReactor → List Call
log_of none = []
log_of (some r) = r.log

waits_logged :
    log_of (run (do_init (some 100) results (initial 4)).1 waits)
    ≡ deletes 5
      ∷ closes 5 (codes "10.0.0.1") 80
      ∷ inputs 5 (codes "10.0.0.1") 80 (codes "you")
      ∷ inputs 5 (codes "10.0.0.1") 80 (codes "hel")
      ∷ renews 5 (codes "10.0.0.1") 80
      ∷ []
unfolding do_init run svc client_id to_string text_eq find insert place erase
waits_logged = refl

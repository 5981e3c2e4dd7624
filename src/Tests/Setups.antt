-- ===== src/Tests/Setups.antt =====
-- Sockets, reactors, UDP clients, timed waits and guards at concrete results of the system calls.
use cpplib.Prelude.{
  update, ℕ, suc, ◌+◌, ◌*◌, ◌<◌, pos, negsuc, true, false, List, [], ◌∷◌, codes, ◌≡◌, ◌⊎◌, refl,
  arith, some,
}
use cpplib.ThreadRwMutex.{
  unlocked, outside, reading, writing, System, guards_read, guards_write, leaves_read, unguarded,
  Reach, start, later,
}
use cpplib.ThreadRwMutex.Exclusion.{writer_alone}
use cpplib.ThreadCond.{until, time_wait}
use cpplib.ThreadCond.Deadline.{at, time_wait_later}
use cpplib.UdpClient.{initial}
use cpplib.UdpClient.Sessions.{Op, connects, closes, apply, run, HoldsOne, run-HoldsOne}
use cpplib.TcpReactor.{has}
use cpplib.TcpReactor.Setup.{Results, constructed, do_init}
use cpplib.TcpReactor.Setup.Descriptors.{Leaves, do_init-Leaves}
use cpplib.SimpleTcpBase.Sockets.{SimpleTcpBase, init_tcp_server, init_tcp_client}
use cpplib.SimpleTcpBase.Sockets.Opening.{init_all_or_nothing}

time_wait_later_example :
    (sec : ℕ) × (nsec : ℕ) × (time_wait (pos (suc 1_999_999)) (pos 0) (at 7 999_999_000)
      ≡ until (at sec nsec))
    × (nsec < 1_000_000_000)
    × (sec * 1_000_000_000 + nsec ≡ 7 * 1_000_000_000 + 999_999_000 + suc 1_999_999 * 1000)
time_wait_later_example = time_wait_later 1_999_999 7 999_999_000 (omega arith)

abbrev calls : List Op
calls =
    connects (codes "10.0.0.1") 53 true (pos 3) (pos 0)
    ∷ closes
    ∷ connects (codes "10.0.0.2") 53 false (pos 4) (pos 0)
    ∷ []

run-HoldsOne_example : HoldsOne (run initial calls)
unfolding apply
run-HoldsOne_example = run-HoldsOne calls ((refl, refl, refl), (tt, ((refl, refl, refl), tt)))

abbrev listens : Results
listens = record {
  rlimit_ret = pos 0;
  rlim_cur = 1024;
  epfd = pos 3;
  aton_ret = pos 0;
  listen_fd = pos 4;
  reuse_ret = negsuc 0;
  non_block_ret = pos 0;
  nodelay_ret = pos 0;
  bind_ret = pos 0;
  listen_ret = pos 0;
  ctl_ret = pos 0;
}

do_init-Leaves_example : Leaves listens (do_init (some 10) listens constructed)
do_init-Leaves_example = do_init-Leaves listens 10 refl

abbrev client : SimpleTcpBase
client = record { sockfd = pos 5; opened = pos 5 ∷ [] }

init_all_or_nothing_example :
    ((init_tcp_server (pos 6) (pos 0) (negsuc 0) (pos 0) client
        ≡ (pos 0, record { sockfd = pos 6; opened = pos 6 ∷ pos 5 ∷ [] }))
      ⊎ (init_tcp_server (pos 6) (pos 0) (negsuc 0) (pos 0) client ≡ (negsuc 0, client)))
    × ((init_tcp_client (pos 6) (pos 0) client
          ≡ (pos 0, record { sockfd = pos 6; opened = pos 6 ∷ pos 5 ∷ [] }))
        ⊎ (init_tcp_client (pos 6) (pos 0) client
            ≡ (negsuc 0, record client { sockfd = negsuc 0 })))
unfolding has
init_all_or_nothing_example = init_all_or_nothing (pos 6) (pos 0) (negsuc 0) (pos 0) client refl

-- One thread has read; another one writes.
abbrev read_one : System
read_one = record {
  lock = record { readers = 1; writer = false };
  scope = update (λ i. outside) 1 reading;
}

abbrev left_one : System
left_one = record {
  lock = record { readers = 0; writer = false };
  scope = update read_one.scope 1 outside;
}

abbrev written : System
written = record {
  lock = record { readers = 0; writer = true };
  scope = update left_one.scope 0 writing;
}

written_reached : Reach 2 written
unfolding unlocked
written_reached =
    later {s = left_one} {t = written}
      (later {s = read_one} {t = left_one}
        (later {s = unguarded} {t = read_one} start (guards_read 1 (omega arith) refl refl))
        (leaves_read 1 (omega arith) refl))
      (guards_write 0 (omega arith) refl refl refl)

writer_alone_example :
    (written.scope 1 ≡ outside) × (written.lock.writer ≡ true) × (written.lock.readers ≡ 0)
writer_alone_example =
    writer_alone 2 0 1 written written_reached (omega arith) (omega arith) refl refl

-- The destructor of a guard whose `lock_read` failed gives up the hold of another thread.
hold_lost :
    unlocked (record { readers = 1; writer = false }) ≡ record { readers = 0; writer = false }
unfolding unlocked
hold_lost = refl

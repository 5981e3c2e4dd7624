-- ===== src/Tests/Singletons.antt =====
-- Two threads in `GetInstance` of TSingleton.
use cpplib.Prelude.{update, ℕ, ◌≤◌, ◌*◌, ◌≡◌, ◌⊎◌, refl, Option, none, some, arith}
use cpplib.TSingleton.{
  locking, checking, making, unlocking, returning, returned, misses, locks, misses_again,
  sees_again, makes, unlocks, returns, System, Step, pick, initial, Reach, start, later,
}
use cpplib.TSingleton.Once.{instance_unique}
use cpplib.TSingleton.Progress.{AllReturned, calls_return}

-- Both see NULL; thread 1 makes the object, and thread 0 finds it when it has the lock.
abbrev s1 : System
s1 = record {
  mem = record { p_instance = none; holder = none; allocated = 0 };
  pc = update initial.pc 0 (locking);
}

abbrev s2 : System
s2 = record {
  mem = record { p_instance = none; holder = none; allocated = 0 };
  pc = update s1.pc 1 (locking);
}

abbrev s3 : System
s3 = record {
  mem = record { p_instance = none; holder = some 1; allocated = 0 };
  pc = update s2.pc 1 (checking);
}

abbrev s4 : System
s4 = record {
  mem = record { p_instance = none; holder = some 1; allocated = 0 };
  pc = update s3.pc 1 (making);
}

abbrev s5 : System
s5 = record {
  mem = record { p_instance = some 0; holder = some 1; allocated = 1 };
  pc = update s4.pc 1 (unlocking);
}

abbrev s6 : System
s6 = record {
  mem = record { p_instance = some 0; holder = none; allocated = 1 };
  pc = update s5.pc 1 (returning);
}

abbrev s7 : System
s7 = record {
  mem = record { p_instance = some 0; holder = some 0; allocated = 1 };
  pc = update s6.pc 0 (checking);
}

abbrev s8 : System
s8 = record {
  mem = record { p_instance = some 0; holder = some 0; allocated = 1 };
  pc = update s7.pc 0 (unlocking);
}

abbrev s9 : System
s9 = record {
  mem = record { p_instance = some 0; holder = some 0; allocated = 1 };
  pc = update s8.pc 1 (returned (some 0));
}

abbrev s10 : System
s10 = record {
  mem = record { p_instance = some 0; holder = none; allocated = 1 };
  pc = update s9.pc 0 (returning);
}

abbrev s11 : System
s11 = record {
  mem = record { p_instance = some 0; holder = none; allocated = 1 };
  pc = update s10.pc 0 (returned (some 0));
}

both_return : Reach 2 11 s11
both_return =
    later {s = s10} {t = s11}
      (later {s = s9} {t = s10}
        (later {s = s8} {t = s9}
          (later {s = s7} {t = s8}
            (later {s = s6} {t = s7}
              (later {s = s5} {t = s6}
                (later {s = s4} {t = s5}
                  (later {s = s3} {t = s4}
                    (later {s = s2} {t = s3}
                      (later {s = s1} {t = s2}
                        (later {s = initial} {t = s1} (start) (pick 0 (omega arith) (misses refl)))
                        (pick 1 (omega arith) (misses refl)))
                      (pick 1 (omega arith) (locks refl)))
                    (pick 1 (omega arith) (misses_again refl)))
                  (pick 1 (omega arith) (makes)))
                (pick 1 (omega arith) (unlocks)))
              (pick 0 (omega arith) (locks refl)))
            (pick 0 (omega arith) (sees_again {p = 0} refl)))
          (pick 1 (omega arith) (returns)))
        (pick 0 (omega arith) (unlocks)))
      (pick 0 (omega arith) (returns))

instance_unique_example :
    (◌≡◌ {A = Option ℕ} (some 0) (some 0))
    × (◌≡◌ {A = Option ℕ} (some 0) (some 0))
    × (s11.mem.p_instance ≡ some 0)
    × (s11.mem.allocated ≡ 1)
instance_unique_example = instance_unique 2 11 0 1 s11 (some 0) (some 0) both_return refl refl

calls_return_example : (11 ≤ 2 * 6) × (AllReturned 2 s11.pc ⊎ ((t : System) × Step 2 s11 t))
calls_return_example = calls_return 2 11 s11 both_return

-- ===== src/SocketUtils/Options/Flags.antt =====
-- The flags that src/SocketUtils.cpp sets on a descriptor.
use cpplib.Prelude.{ℤ, pos, ltb_ℤ, true, false, ◌≡◌, refl}
use cpplib.SocketUtils.Options.{Descriptor, set_status, set_non_bolck, set_bolck, set_closeonexec}

-- Where `fcntl` succeeds, `set_non_bolck` and `set_bolck` give 0; the first makes the descriptor
-- not block and the second block again, and they change nothing else of it: behind the first, the
-- second gives the descriptor as the second alone would.
pub blocking_set :
    (get_ret set_ret : ℤ) (d : Descriptor)
    → ltb_ℤ get_ret (pos 0) ≡ false
    → ltb_ℤ set_ret (pos 0) ≡ false
    → let (code, on) = set_non_bolck get_ret set_ret d in
      let (code', off) = set_bolck get_ret set_ret on in
      (code ≡ pos 0)
      × (on ≡ record d { status = record d.status { nonblock = true } })
      × (code' ≡ pos 0)
      × (off ≡ record d { status = record d.status { nonblock = false } })
unfolding set_non_bolck set_bolck set_status
blocking_set get_ret set_ret d h k = rw (h, k) (refl, refl, refl, refl)

-- `set_closeonexec` changes nothing: where `fcntl` succeeds it gives 0 all the same, and the
-- descriptor stays open over `exec` as before.
pub set_closeonexec_misses :
    (get_ret set_ret : ℤ) (d : Descriptor)
    → ltb_ℤ get_ret (pos 0) ≡ false
    → ltb_ℤ set_ret (pos 0) ≡ false
    → set_closeonexec get_ret set_ret d ≡ (pos 0, d)
unfolding set_closeonexec set_status
set_closeonexec_misses get_ret set_ret d h k = rw (h, k) refl

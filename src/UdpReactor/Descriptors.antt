-- ===== src/UdpReactor/Descriptors.antt =====
-- The descriptors of src/UdpReactor.cpp, from `do_init` to `release`.
use cpplib.Prelude.{ℕ, pos, negsuc, eq_ℤ, ltb_ℤ, false, some, [], ◌∷◌, ◌≡◌, refl}
use cpplib.UdpReactor.{initial, Results, UdpReactor, epoller_create, do_bind, do_init, release}

-- The calls up to `socket` succeed.
abbrev pub HasSocket : Results → Type 0
HasSocket s =
    (s.rlimit_ret ≡ pos 0) × (eq_ℤ s.epfd (negsuc 0) ≡ false) × (ltb_ℤ s.fd (pos 0) ≡ false)

-- Where `bind` fails behind a `socket` that succeeded, `do_init` gives its result and has closed
-- the socket, and the destructor's `release` closes the same number again, behind the descriptor
-- of epoll: by then it may be another open file of the process.
pub failed_bind_closes_twice :
    (buf_size epoll_size : ℕ) (s : Results)
    → HasSocket s
    → eq_ℤ s.bind_ret (pos 0) ≡ false
    → ((do_init (some epoll_size) s (initial buf_size)).0 ≡ s.bind_ret)
      × ((r : UdpReactor) × (release (do_init (some epoll_size) s (initial buf_size)).1 ≡ some r)
          × (r.closed ≡ s.fd ∷ s.epfd ∷ s.fd ∷ []))
unfolding do_init epoller_create do_bind release
failed_bind_closes_twice buf_size epoll_size s (limit, epoll, socket) failed =
    rw (limit, epoll, socket, failed, do_init) (refl, (_, refl, refl))

-- Where all calls succeed, `do_init` gives 0 and has closed nothing, and `release` closes the two
-- descriptors once, if no client has a handler then.
pub init_closes_once :
    (buf_size epoll_size : ℕ) (s : Results)
    → HasSocket s
    → s.bind_ret ≡ pos 0
    → s.ctl_ret ≡ pos 0
    → ((do_init (some epoll_size) s (initial buf_size)).0 ≡ pos 0)
      × ((r : UdpReactor) × (release (do_init (some epoll_size) s (initial buf_size)).1 ≡ some r)
          × (r.closed ≡ s.fd ∷ s.epfd ∷ []))
unfolding do_init epoller_create do_bind release
init_closes_once buf_size epoll_size s (limit, epoll, socket) bound added =
    rw (limit, epoll, socket, bound, added, do_init) (refl, (_, refl, refl))

-- ===== src/TcpReactor/Setup.antt =====
-- src/TcpReactor.cpp before and after its events: `do_init` and `release`, with the descriptors
-- that the process has open for the reactor, newest first.
pub mod Descriptors
use cpplib.Prelude.{
  ℕ, ℤ, pos, negsuc, eq_ℤ, ltb_ℤ, Bool, true, false, not, Option, none, some, List, [], ◌∷◌, ltb,
  if◌then◌else◌,
}
use cpplib.TcpReactor.{remove}

pub record Setup : Type 0 where
  pub listen_fd : ℤ
  pub epfd : ℤ
  pub epoll_size : ℕ
  pub opened : List ℤ

abbrev pub constructed : Setup
constructed = record { listen_fd = negsuc 0; epfd = negsuc 0; epoll_size = 0; opened = [] }

-- The results of the calls of `do_init`, in their order: `getrlimit` with the limit,
-- `epoll_create`, `inet_aton`, `socket`, `set_reuseaddr`, `set_non_bolck`, `set_nodelay`, `bind`,
-- `listen` and `epoll_ctl`.
pub record Results : Type 0 where
  pub rlimit_ret : ℤ
  pub rlim_cur : ℕ
  pub epfd : ℤ
  pub aton_ret : ℤ
  pub listen_fd : ℤ
  pub reuse_ret : ℤ
  pub non_block_ret : ℤ
  pub nodelay_ret : ℤ
  pub bind_ret : ℤ
  pub listen_ret : ℤ
  pub ctl_ret : ℤ

unfoldable pub epoller_create : ℕ → ℤ → Setup → ℤ × Setup
epoller_create epoll_size epfd r =
    if eq_ℤ epfd (negsuc 0)
    then (negsuc 0, record r { epfd = epfd })
    else (pos 0, record r { epfd = epfd; epoll_size = epoll_size; opened = epfd ∷ r.opened })

-- The end of `do_listen` where a call behind `socket` has failed.
abbrev pub close_listen : ℤ → Setup → ℤ × Setup
close_listen ret r = (ret, record r { opened = remove r.listen_fd r.opened })

-- What `inet_aton`, `set_reuseaddr`, `set_non_bolck` and `set_nodelay` return is not looked at.
unfoldable pub do_listen : Results → Setup → ℤ × Setup
unfolding remove
do_listen s r =
    if ltb_ℤ s.listen_fd (pos 0)
    then (s.listen_fd, record r { listen_fd = s.listen_fd })
    else let made : Setup = record r { listen_fd = s.listen_fd; opened = s.listen_fd ∷ r.opened } in
      if not (eq_ℤ s.bind_ret (pos 0))
      then close_listen s.bind_ret made
      else if not (eq_ℤ s.listen_ret (pos 0))
      then close_listen s.listen_ret made
      else if not (eq_ℤ s.ctl_ret (pos 0))
      then close_listen s.ctl_ret made
      else (s.ctl_ret, made)

-- `args` has the wanted `epoll_size`.
unfoldable pub do_init : Option ℕ → Results → Setup → ℤ × Setup
unfolding epoller_create do_listen
do_init none s r = (negsuc 0, r)
do_init (some epoll_size) s r =
    if not (eq_ℤ s.rlimit_ret (pos 0))
    then (s.rlimit_ret, r)
    else let created =
        epoller_create (if ltb epoll_size s.rlim_cur then epoll_size else s.rlim_cur) s.epfd r in
      if not (eq_ℤ created.0 (pos 0)) then created else do_listen s created.1

unfoldable pub stop_listen : Setup → Setup
unfolding remove
stop_listen r = record r { opened = remove r.listen_fd r.opened }

unfoldable pub release : Setup → Setup
unfolding remove
release r = record r { epfd = negsuc 0; opened = remove r.epfd r.opened }

-- ===== src/TcpClientEpoll/Descriptors.antt =====
-- The descriptors that a client of src/ConnMgt/TcpClientEpoll.cpp holds.
use cpplib.Prelude.{
  sym, subst, ℤ, pos, negsuc, ltb_ℤ, eq_ℤ, eq_ℤ_iff, Bool, true, false, not, ◌&&◌, List, [], ◌∷◌,
  ◌≡◌, ◌≢◌, ◌⊎◌, inl, inr, refl, arith, Bool-cases,
}
use cpplib.TcpReactor.{remove}
use cpplib.TcpClientEpoll.{
  TcpClientEpoll, Attempt, init, is_zero, do_init, close_fd, close_epfd, start, connect, close,
  tcp_epoll_cb,
}

-- An open client holds its socket and, if it is asynchronous, its epoll descriptor; a closed one
-- holds none.
abbrev pub IsTight : TcpClientEpoll → Type 0
IsTight c =
    ((c.is_open ≡ false) × (c.descriptors ≡ []))
    ⊎ ((c.is_open ≡ true) × (c.asyn ≡ false) × (c.descriptors ≡ c.fd ∷ []))
    ⊎ ((c.is_open ≡ true)
        × (c.asyn ≡ true)
        × (c.descriptors ≡ c.epfd ∷ c.fd ∷ [])
        × (c.epfd ≢ c.fd))

-- `do_init` has not failed behind `epoll_create`, which returned a new descriptor.
abbrev pub IsClean : Attempt → Type 0
IsClean a = (a.added ≡ pos 0) × (a.masked ≡ pos 0) × (a.created ≢ a.socket)

remove_one : (fd : ℤ) → remove fd (fd ∷ []) ≡ []
unfolding remove
remove_one fd = ground (arith, eq_ℤ_iff fd fd)

remove_first : (a b : ℤ) → a ≢ b → remove a (a ∷ b ∷ []) ≡ b ∷ []
unfolding remove
remove_first a b ne = ground (arith, eq_ℤ_iff a a, eq_ℤ_iff b a)

pub close_holds_none : (c : TcpClientEpoll) → IsTight c → (close c).descriptors ≡ []
unfolding close close_fd close_epfd
close_holds_none c (inl (e, d)) = ground (arith, e, d)
close_holds_none c (inr (inl (e, s, d))) = ground (arith, e, s, d, remove_one c.fd)
close_holds_none c (inr (inr (e, s, d, ne))) =
    ground (arith, e, s, d, remove_first c.epfd c.fd ne, remove_one c.fd)

pub close-IsTight : (c : TcpClientEpoll) → IsTight c → IsTight (close c)
unfolding close close_fd close_epfd
close-IsTight c (inl (e, d)) = inl (ground (arith, e), ground (arith, e, d))
close-IsTight c (inr (inl (e, s, d))) =
    inl (ground (arith, e, s), ground (arith, e, s, d, remove_one c.fd))
close-IsTight c (inr (inr (e, s, d, ne))) =
    inl
      (ground (arith, e, s), ground (arith, e, s, d, remove_first c.epfd c.fd ne, remove_one c.fd))

start-IsTight :
    (a : Attempt) (c : TcpClientEpoll)
    → IsClean a
    → c.is_open ≡ false
    → c.fd ≡ a.socket
    → c.descriptors ≡ c.fd ∷ []
    → IsTight (start a c).1
unfolding start do_init close_fd close_epfd
start-IsTight a c clean shut f d = elim (Bool-cases c.asyn) [
  | inr sync ↦ inr (inl (ground (arith, sync), ground (arith, sync), ground (arith, sync, d)))
  | inl asyn ↦ elim (Bool-cases (is_zero a.limited)) [
    | inr bad ↦ inl (ground (arith, asyn, bad, shut), ground (arith, asyn, bad, d, remove_one c.fd))
    | inl ok ↦ elim (Bool-cases (eq_ℤ a.created (negsuc 0))) [
      | inl failed ↦ inl (
        ground (arith, asyn, ok, failed, shut),
        ground (arith, asyn, ok, failed, d, remove_one c.fd),
      )
      | inr made ↦ elim (Bool-cases (is_zero a.threaded)) [
        | inl runs ↦ inr (
            inr (
              ground (arith, asyn, ok, made, runs, clean.0, clean.1),
              ground (arith, asyn, ok, made, runs, clean.0, clean.1),
              ground (arith, asyn, ok, made, runs, clean.0, clean.1, d),
              ground (arith, asyn, ok, made, runs, clean.0, clean.1, clean.2, f),
            ))
        | inr stops ↦ inl (
          ground (arith, asyn, ok, made, stops, clean.0, clean.1, shut),
          ground (
            arith,
            asyn,
            ok,
            made,
            stops,
            clean.0,
            clean.1,
            d,
            f,
            remove_first a.created a.socket clean.2,
            remove_one a.socket,
          ),
        )
      ]
    ]
  ]
]

-- With its socket connected, a closed client goes on to `start`.
connect-start :
    (a : Attempt) (c : TcpClientEpoll)
    → c.is_open ≡ false
    → ltb_ℤ a.socket (pos 0) ≡ false
    → is_zero a.connected ≡ true
    → connect a c ≡ start a (record c { fd = a.socket; descriptors = a.socket ∷ c.descriptors })
unfolding connect
connect-start a c e fine ok = rw (e, fine, ok, connect) refl

pub connect-IsTight :
    (a : Attempt) (c : TcpClientEpoll) → IsClean a → IsTight c → IsTight (connect a c).1
unfolding connect close_fd
connect-IsTight a c clean (inr (inl (e, s, d))) =
    inr (inl (ground (arith, e), ground (arith, e, s), ground (arith, e, d)))
connect-IsTight a c clean (inr (inr (e, s, d, ne))) =
    inr (inr (ground (arith, e), ground (arith, e, s), ground (arith, e, d), ground (arith, e, ne)))
connect-IsTight a c clean (inl (e, d)) =
    let got = record c { fd = a.socket; descriptors = a.socket ∷ c.descriptors } in
    let held : got.descriptors ≡ a.socket ∷ [] = ground (arith, d) in
    elim (Bool-cases (ltb_ℤ a.socket (pos 0))) [
      | inl bad ↦ inl (ground (arith, e, bad), ground (arith, e, bad, d))
      | inr fine ↦ elim (Bool-cases (is_zero a.connected)) [
        | inr refused ↦ inl (
          ground (arith, e, fine, refused),
          ground (arith, e, fine, refused, held, remove_one a.socket),
        )
        | inl ok ↦
            subst (λ (r : ℤ × TcpClientEpoll). IsTight r.1) (sym (connect-start a c e fine ok))
              (start-IsTight a got clean e refl held)
      ]
    ]

pub tcp_epoll_cb-IsTight :
    (events : List (Bool × ℤ)) (c : TcpClientEpoll) → IsTight c → IsTight (tcp_epoll_cb events c)
unfolding tcp_epoll_cb
tcp_epoll_cb-IsTight [] c t = t
tcp_epoll_cb-IsTight ((is_in, ret) ∷ events) c t = elim (Bool-cases (is_in && not (is_zero ret))) [
  | inl fails ↦ rw (fails, tcp_epoll_cb) (tcp_epoll_cb-IsTight events (close c) (close-IsTight c t))
  | inr fine ↦ rw (fine, tcp_epoll_cb) (tcp_epoll_cb-IsTight events c t)
]

pub init-IsTight : (asyn : Bool) → IsTight (init asyn)
unfolding init
init-IsTight asyn = inl (refl, refl)

-- An asynchronous `connect` whose `epoll_ctl` fails leaves the client closed, with the epoll
-- descriptor open; `close` does not release it.
pub connect_leaks :
    (a : Attempt)
    → ltb_ℤ a.socket (pos 0) ≡ false
    → a.connected ≡ pos 0
    → a.limited ≡ pos 0
    → eq_ℤ a.created (negsuc 0) ≡ false
    → a.created ≢ a.socket
    → is_zero a.added ≡ false
    → let (code, c) = connect a (init true) in
      (code ≡ a.added)
      × (c.is_open ≡ false)
      × (c.descriptors ≡ a.created ∷ [])
      × ((close c).descriptors ≡ a.created ∷ [])
unfolding connect start do_init close_fd close_epfd close init remove
connect_leaks a h1 h2 h3 h4 h5 h6 =
    ground (arith, h1, h2, h3, h4, h5, h6, eq_ℤ_iff a.created a.socket, eq_ℤ_iff a.socket a.socket)

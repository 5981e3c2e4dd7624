-- ===== src/SimpleTcpBase/Sockets/Opening.antt =====
-- The sockets that src/SimpleTcpBase.cpp opens, uses and closes.
use cpplib.Prelude.{
  ℤ, pos, negsuc, eq_ℤ, eq_ℤ_iff, true, false, List, [], ◌∷◌, ◌≡◌, refl, ap, ◌⊎◌, inl, inr,
  Bool-cases, arith,
}
use cpplib.TcpReactor.{has, remove}
use cpplib.SimpleTcpBase.Sockets.{SimpleTcpBase, is_error, init_tcp_client, init_tcp_server}

remove-fresh : (fd : ℤ) (fds : List ℤ) → has fd fds ≡ false → remove fd fds ≡ fds
unfolding has remove
remove-fresh fd [] h = refl
remove-fresh fd (f ∷ fds) h = elim (Bool-cases (eq_ℤ f fd)) [
  | inl same ↦ absurd (ground (arith, h, same))
  | inr other ↦
      rw other (ap (λ (l : List ℤ). f ∷ l) (remove-fresh fd fds (ground (arith, h, other))))
]

remove-newest : (fd : ℤ) (fds : List ℤ) → has fd fds ≡ false → remove fd (fd ∷ fds) ≡ fds
unfolding remove
remove-newest fd fds h =
    let own : eq_ℤ fd fd ≡ true = (eq_ℤ_iff fd fd).1 refl in rw own (remove-fresh fd fds h)

module _ (fd opt_ret : ℤ) where
  server-cases :
      (bind_ret listen_ret : ℤ) (t : SimpleTcpBase)
      → remove fd (fd ∷ t.opened) ≡ t.opened
      → (init_tcp_server fd opt_ret bind_ret listen_ret t
          ≡ (pos 0, record { sockfd = fd; opened = fd ∷ t.opened }))
        ⊎ (init_tcp_server fd opt_ret bind_ret listen_ret t ≡ (negsuc 0, t))
  unfolding init_tcp_server
  server-cases bind_ret listen_ret t gone = elim (Bool-cases (is_error fd)) [
    | inl a ↦ inr (rw a refl)
    | inr a ↦ elim (Bool-cases (is_error opt_ret)) [
      | inl b ↦ inr (rw (a, b, gone) refl)
      | inr b ↦ elim (Bool-cases (is_error bind_ret)) [
        | inl c ↦ inr (rw (a, b, c, gone) refl)
        | inr c ↦ inl (rw (a, b, c) refl)
      ]
    ]
  ]

  client-cases :
      (t : SimpleTcpBase)
      → remove fd (fd ∷ t.opened) ≡ t.opened
      → (init_tcp_client fd opt_ret t ≡ (pos 0, record { sockfd = fd; opened = fd ∷ t.opened }))
        ⊎ (init_tcp_client fd opt_ret t ≡ (negsuc 0, record t { sockfd = negsuc 0 }))
  unfolding init_tcp_client
  client-cases t gone = elim (Bool-cases (is_error fd)) [
    | inl a ↦
        let none_made = (eq_ℤ_iff fd (negsuc 0)).0 a in
        inr (rw a (ap (λ (f : ℤ). (negsuc 0, record t { sockfd = f })) none_made))
    | inr a ↦ elim (Bool-cases (is_error opt_ret)) [
      | inl b ↦ inr (rw (a, b, gone) refl)
      | inr b ↦ inl (rw (a, b) refl)
    ]
  ]

-- Where `socket` does not return a descriptor that is open, `InitTcpServer` gives 0 with one more
-- open socket, the one that it keeps, or -1 and leaves the object as it was, with no socket of its
-- own open; `InitTcpClient` does the same, but at a failure takes the socket that it had away.
pub init_all_or_nothing :
    (fd opt_ret bind_ret listen_ret : ℤ) (t : SimpleTcpBase)
    → has fd t.opened ≡ false
    → ((init_tcp_server fd opt_ret bind_ret listen_ret t
          ≡ (pos 0, record { sockfd = fd; opened = fd ∷ t.opened }))
        ⊎ (init_tcp_server fd opt_ret bind_ret listen_ret t ≡ (negsuc 0, t)))
      × ((init_tcp_client fd opt_ret t ≡ (pos 0, record { sockfd = fd; opened = fd ∷ t.opened }))
          ⊎ (init_tcp_client fd opt_ret t ≡ (negsuc 0, record t { sockfd = negsuc 0 })))
init_all_or_nothing fd opt_ret bind_ret listen_ret t fresh = (
  server-cases fd opt_ret bind_ret listen_ret t (remove-newest fd t.opened fresh),
  client-cases fd opt_ret t (remove-newest fd t.opened fresh),
)

-- ===== src/TcpReactor/Setup/Descriptors.antt =====
-- The descriptors of src/TcpReactor.cpp from `do_init` to `release`.
use cpplib.Prelude.{
  ℕ, ℤ, pos, negsuc, eq_ℤ, eq_ℤ_iff, ltb_ℤ, ltb, Bool, true, false, not, some, [], ◌∷◌, ◌≡◌, refl,
  sym, subst, ◌⊎◌, inl, inr, if◌then◌else◌, arith, Bool-cases,
}
use cpplib.TcpReactor.{remove}
use cpplib.TcpReactor.Setup.{
  Setup, constructed, Results, epoller_create, close_listen, do_listen, do_init, stop_listen,
  release,
}

-- Two descriptors that are open together are not the same.
abbrev pub AreDistinct : Results → Type 0
AreDistinct s = eq_ℤ s.listen_fd s.epfd ≡ false

-- Each of the six results that the code looks at is the one of success.
abbrev pub succeeds : Results → Bool
succeeds s =
    if not (eq_ℤ s.rlimit_ret (pos 0))
    then false
    else if eq_ℤ s.epfd (negsuc 0)
    then false
    else if ltb_ℤ s.listen_fd (pos 0)
    then false
    else if not (eq_ℤ s.bind_ret (pos 0))
    then false
    else if not (eq_ℤ s.listen_ret (pos 0))
    then false
    else eq_ℤ s.ctl_ret (pos 0)

-- What is open after `do_init`, and after `release` behind it.
abbrev pub Leaves : Results → ℤ × Setup → Type 0
Leaves s (code, r) =
    ((succeeds s ≡ true)
      × (code ≡ pos 0)
      × (r.opened ≡ s.listen_fd ∷ s.epfd ∷ [])
      × ((release r).opened ≡ s.listen_fd ∷ [])
      × ((release (stop_listen r)).opened ≡ []))
    ⊎ ((succeeds s ≡ false) × (eq_ℤ code (pos 0) ≡ false) × ((release r).opened ≡ []))

below_zero : (a : ℤ) → ltb_ℤ a (pos 0) ≡ true → eq_ℤ a (pos 0) ≡ false
below_zero (pos n) h = ground (arith, h)
below_zero (negsuc n) h = refl

eq_own : (a : ℤ) → eq_ℤ a a ≡ true
eq_own a = (eq_ℤ_iff a a).1 refl

eq_flip : (a b : ℤ) → eq_ℤ a b ≡ false → eq_ℤ b a ≡ false
eq_flip a b h = ground (arith, h, eq_ℤ_iff a b, eq_ℤ_iff b a)

module _ (a b : ℤ) (distinct : eq_ℤ a b ≡ false) where
  remove-first : remove a (a ∷ b ∷ []) ≡ b ∷ []
  unfolding remove
  remove-first = rw (eq_own a, eq_flip a b distinct) refl

  remove-second : remove b (a ∷ b ∷ []) ≡ a ∷ []
  unfolding remove
  remove-second = rw (distinct, eq_own b) refl

remove-only : (a : ℤ) → remove a (a ∷ []) ≡ []
unfolding remove
remove-only a = rw (eq_own a) refl

module _ (s : Results) (size : ℕ) (distinct : AreDistinct s) where
  abbrev created : Setup
  created = record {
    listen_fd = negsuc 0;
    epfd = s.epfd;
    epoll_size = if ltb size s.rlim_cur then size else s.rlim_cur;
    opened = s.epfd ∷ [];
  }

  abbrev made : Setup
  made = record created { listen_fd = s.listen_fd; opened = s.listen_fd ∷ s.epfd ∷ [] }

  release-created : (fd : ℤ) → (release (record created { listen_fd = fd })).opened ≡ []
  unfolding release
  release-created fd = remove-only s.epfd

  release-constructed : (release constructed).opened ≡ []
  unfolding release remove
  release-constructed = refl

  -- A failure behind `socket`, and the success.
  closed_listen :
      (ret : ℤ) → eq_ℤ ret (pos 0) ≡ false → succeeds s ≡ false → Leaves s (close_listen ret made)
  unfolding release
  closed_listen ret bad failed =
      inr (failed, bad, rw (remove-first s.listen_fd s.epfd distinct) (remove-only s.epfd))

  opened_listen : s.ctl_ret ≡ pos 0 → succeeds s ≡ true → Leaves s (s.ctl_ret, made)
  unfolding release stop_listen
  opened_listen added ok = inl (
    ok,
    added,
    refl,
    remove-second s.listen_fd s.epfd distinct,
    rw (remove-first s.listen_fd s.epfd distinct) (remove-only s.epfd),
  )

  do_listen-Leaves :
      eq_ℤ s.rlimit_ret (pos 0) ≡ true
      → eq_ℤ s.epfd (negsuc 0) ≡ false
      → Leaves s (do_listen s created)
  unfolding do_listen
  do_listen-Leaves limit epoll = elim (Bool-cases (ltb_ℤ s.listen_fd (pos 0))) [
    | inl bad ↦
        let step : do_listen s created ≡ (s.listen_fd, record created { listen_fd = s.listen_fd }) =
          rw bad refl in
        let failed : succeeds s ≡ false = rw (limit, epoll, bad) refl in
        subst (Leaves s) (sym step)
          (inr (failed, below_zero s.listen_fd bad, release-created s.listen_fd))
    | inr a ↦ elim (Bool-cases (eq_ℤ s.bind_ret (pos 0))) [
      | inr bad ↦
          let step : do_listen s created ≡ close_listen s.bind_ret made = rw (a, bad) refl in
          let failed : succeeds s ≡ false = rw (limit, epoll, a, bad) refl in
          subst (Leaves s) (sym step) (closed_listen s.bind_ret bad failed)
      | inl b ↦ elim (Bool-cases (eq_ℤ s.listen_ret (pos 0))) [
        | inr bad ↦
            let step : do_listen s created ≡ close_listen s.listen_ret made = rw (a, b, bad) refl in
            let failed : succeeds s ≡ false = rw (limit, epoll, a, b, bad) refl in
            subst (Leaves s) (sym step) (closed_listen s.listen_ret bad failed)
        | inl c ↦ elim (Bool-cases (eq_ℤ s.ctl_ret (pos 0))) [
          | inr bad ↦
              let step : do_listen s created ≡ close_listen s.ctl_ret made =
                rw (a, b, c, bad) refl in
              let failed : succeeds s ≡ false = rw (limit, epoll, a, b, c, bad) refl in
              subst (Leaves s) (sym step) (closed_listen s.ctl_ret bad failed)
          | inl d ↦
              let step : do_listen s created ≡ (s.ctl_ret, made) = rw (a, b, c, d) refl in
              let ok : succeeds s ≡ true = rw (limit, epoll, a, b, c, d) refl in
              subst (Leaves s) (sym step) (opened_listen ((eq_ℤ_iff s.ctl_ret (pos 0)).0 d) ok)
        ]
      ]
    ]
  ]

  -- `do_init` on a new reactor gives 0 just if `getrlimit`, `epoll_create`, `socket`, `bind`,
  -- `listen` and `epoll_ctl` all succeed, whatever `inet_aton`, `set_reuseaddr`, `set_non_bolck`
  -- and `set_nodelay` return: a failure of these four is not reported. Where it gives 0, the listening
  -- socket and the descriptor of epoll are open, and `release` closes the second only: the
  -- socket stays open unless `stop_listen` is called before. At every other result, `release` leaves
  -- no descriptor open. The kernel is asked for a socket other than the open descriptor of epoll.
  pub do_init-Leaves : Leaves s (do_init (some size) s constructed)
  unfolding do_init epoller_create release
  do_init-Leaves = elim (Bool-cases (eq_ℤ s.rlimit_ret (pos 0))) [
    | inr bad ↦
        let step : do_init (some size) s constructed ≡ (s.rlimit_ret, constructed) = rw bad refl in
        let failed : succeeds s ≡ false = rw bad refl in
        subst (Leaves s) (sym step) (inr (failed, bad, release-constructed))
    | inl limit ↦ elim (Bool-cases (eq_ℤ s.epfd (negsuc 0))) [
      | inl bad ↦
          let step : do_init (some size) s constructed
              ≡ (negsuc 0, record constructed { epfd = s.epfd }) =
            rw (limit, bad, do_init) refl in
          let failed : succeeds s ≡ false = rw (limit, bad) refl in
          subst (Leaves s) (sym step) (inr (failed, refl, release-constructed))
      | inr epoll ↦
          let step : do_init (some size) s constructed ≡ do_listen s created =
            rw (limit, epoll, do_init) refl in
          subst (Leaves s) (sym step) (do_listen-Leaves limit epoll)
    ]
  ]

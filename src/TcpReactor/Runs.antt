-- ===== src/TcpReactor/Runs.antt =====
-- Runs of the reactor in src/TcpReactor.cpp.
use cpplib.Prelude.{ℕ, ℤ, pos, eq_ℤ, some, List, [], ◌∷◌, ◌≡◌, refl, inl, inr, Bool-cases, int_key}
use cpplib.OrderedMap.{find}
use cpplib.TcpReactor.{
  inputs, outputs, exceptions, TcpReactor, Event, has, called, input, handle, svc, del_fd,
}
use cpplib.TcpReactor.Protocol.{
  handler_of, IsOrdered, IsServing, IsFresh, inputs-IsServing, outputs-IsServing,
  exceptions-IsServing, closes-IsServing, del_fd-IsServing, with_handler-IsServing,
  accept-IsServing,
}

module _ (r : TcpReactor) (s : IsServing r) where
  input-IsServing : (e : Event) (h : ℕ) → find e.fd r.handlers ≡ some h → IsServing (input e h r)
  unfolding input called
  input-IsServing e h there = elim (Bool-cases (eq_ℤ e.ret (pos 0))) [
    | inl ok ↦ rw (ok, input) (inputs-IsServing r s h e.fd there)
    | inr bad ↦
        rw (bad, input)
          (closes-IsServing (called (inputs h e.fd) r) (inputs-IsServing r s h e.fd there) h e.fd
            there)
  ]

  handle-IsServing : (e : Event) → IsFresh r e → IsServing (handle r e)
  unfolding handle
  handle-IsServing e fresh =
      let out =
        with_handler-IsServing r s (λ h. called (outputs h e.fd)) e.fd
          (λ h. outputs-IsServing r s h e.fd) in
      let exception =
        with_handler-IsServing r s (λ h. called (exceptions h e.fd)) e.fd
          (λ h. exceptions-IsServing r s h e.fd) in
      let ordinary = with_handler-IsServing r s (input e) e.fd (input-IsServing e) in
      elim (Bool-cases e.is_out) [
        | inl a ↦ rw (a, handle) out
        | inr a ↦ elim (Bool-cases e.is_in) [
          | inl b ↦ elim (Bool-cases (eq_ℤ r.listen_fd e.fd)) [
            | inl c ↦ rw (a, b, c, handle) (accept-IsServing r s e fresh)
            | inr c ↦ rw (a, b, c, handle) ordinary
          ]
          | inr b ↦ elim (Bool-cases e.is_pri) [
            | inl c ↦ rw (a, b, c, handle) exception
            | inr c ↦ rw (a, b, c, handle) s
          ]
        ]
      ]

-- The events of one `epoll_wait`, or a call of `del_fd` by another thread.
pub data Step : Type 0 where
  serves : List Event → Step
  drops : ℤ → Step

unfoldable pub run : TcpReactor → List Step → TcpReactor
run r [] = r
run r (serves events ∷ steps) = run (svc events r) steps
run r (drops fd ∷ steps) = run (del_fd fd r) steps

-- Each event meets a reactor to which its accepted descriptor is new.
unfoldable pub AreFresh : TcpReactor → List Event → Type 0
AreFresh r [] = Unit
AreFresh r (e ∷ events) = IsFresh r e × AreFresh (handle r e) events

unfoldable pub StepsAreFresh : TcpReactor → List Step → Type 0
StepsAreFresh r [] = Unit
StepsAreFresh r (serves events ∷ steps) = AreFresh r events × StepsAreFresh (svc events r) steps
StepsAreFresh r (drops fd ∷ steps) = StepsAreFresh (del_fd fd r) steps

svc-IsServing :
    (events : List Event) (r : TcpReactor)
    → AreFresh r events
    → IsServing r
    → IsServing (svc events r)
unfolding svc AreFresh
svc-IsServing [] r fresh s = s
svc-IsServing (e ∷ events) r fresh s =
    svc-IsServing events (handle r e) fresh.1 (handle-IsServing r s e fresh.0)

-- A reactor that serves no connection yet.
abbrev pub listening : ℤ → TcpReactor
listening fd = record { handlers = []; listen_fd = fd; opened = []; watched = []; log = [] }

listening-IsServing : (fd : ℤ) → IsServing (listening fd)
unfolding IsOrdered handler_of find has
listening-IsServing fd = record { ordered = tt; served = λ j. refl; open_served = λ j. refl }

run_from :
    (steps : List Step) (r : TcpReactor)
    → StepsAreFresh r steps
    → IsServing r
    → IsServing (run r steps)
unfolding run StepsAreFresh
run_from [] r fresh s = s
run_from (serves events ∷ steps) r fresh s =
    run_from steps (svc events r) fresh.1 (svc-IsServing events r fresh.0 s)
run_from (drops fd ∷ steps) r fresh s = run_from steps (del_fd fd r) fresh (del_fd-IsServing r s fd)

-- From a reactor that only listens on, over any batches of events and calls of `del_fd` between
-- them, where `accept` never returns an open descriptor: a descriptor is offered to a handler with
-- `handle_accept` only while no other serves it; every later call for it goes to that handler,
-- and none after `handle_close` or `del_fd`; the map has just those handlers, and just the
-- descriptors that have one are open.
pub run-IsServing :
    (fd : ℤ) (steps : List Step)
    → StepsAreFresh (listening fd) steps
    → IsServing (run (listening fd) steps)
run-IsServing fd steps fresh = run_from steps (listening fd) fresh (listening-IsServing fd)

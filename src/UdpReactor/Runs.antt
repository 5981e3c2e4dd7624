-- ===== src/UdpReactor/Runs.antt =====
-- Runs of the reactor in src/UdpReactor.cpp.
use cpplib.Prelude.{
  ℕ, ℤ, pos, ltb_ℤ, false, eq_ℤ_iff, arith, negsuc, ◌++◌, append_assoc, append-nil, ◌≡◌, sym, subst,
  eq_ℤ, ◌==◌, ◌&&◌, Option, none, some, List, [], ◌∷◌, refl, inl, inr, Bool-cases, text_key,
}
use cpplib.OrderedMap.{find}
use cpplib.UdpReactor.{
  Results, do_init, epoller_create, do_bind, UdpReactor, initial, Event, Waited, ready, broken,
  svc_loop, svc,
}
use cpplib.UdpReactor.Delivery.{Input, inputs_of, arrived, Delivers, svc_loop-Delivers}
use cpplib.UdpReactor.Protocol.{IsServing, IsOrdered, handler_of, receive-IsServing}

svc_loop-IsServing :
    (events : List Event) (r : UdpReactor) → IsServing r → IsServing (svc_loop events r)
unfolding svc_loop
svc_loop-IsServing [] r s = s
svc_loop-IsServing (e ∷ events) r s =
    let rest = svc_loop-IsServing events r s in
    elim (Bool-cases (e.is_in && eq_ℤ r.fd e.fd)) [
      | inl own ↦ rw (own, svc_loop) (receive-IsServing r s e.received e.renewed)
      | inr other ↦ rw (other, svc_loop) rest
    ]

-- The thread calls `svc` again and again, until one aborts.
unfoldable pub run : UdpReactor → List Waited → Option UdpReactor
run r [] = some r
run r (w ∷ waits) = elim (svc w r) [ none ↦ none | some s ↦ run s waits ]

-- What a run of batches brings, newest first.
abbrev pub arrived_all : ℤ → ℕ → List Waited → List Input
arrived_all fd buf_size [] = []
arrived_all fd buf_size (ready events ∷ waits) =
    arrived_all fd buf_size waits ++ arrived fd buf_size events
arrived_all fd buf_size (broken errno ∷ waits) = arrived_all fd buf_size waits

-- A reactor that has delivered a list of inputs; `none` is a call of `abort`.
abbrev pub Serves : List Input → Option UdpReactor → Type 0
Serves due none = Unit
Serves due (some r) = IsServing r × (inputs_of r.log ≡ due)

delivered_then :
    {r s : UdpReactor} {new : List Input} (waits : List Waited)
    → Delivers r s new
    → arrived_all s.fd s.buf_size waits ++ inputs_of s.log
      ≡ (arrived_all r.fd r.buf_size waits ++ new) ++ inputs_of r.log
delivered_then {r} {s} {new} waits d =
    rw (d.same_fd, d.same_size, d.delivered)
      (sym (append_assoc (arrived_all r.fd r.buf_size waits) new (inputs_of r.log)))

run_from :
    (waits : List Waited) (r : UdpReactor)
    → IsServing r
    → Serves (arrived_all r.fd r.buf_size waits ++ inputs_of r.log) (run r waits)
unfolding run svc
run_from [] r s = (s, refl)
run_from (ready events ∷ waits) r s =
    let next = svc_loop events r in
    subst (λ due. Serves due (run next waits)) (delivered_then waits (svc_loop-Delivers events r))
      (run_from waits next (svc_loop-IsServing events r s))
run_from (broken errno ∷ waits) r s = elim (Bool-cases (errno == 4)) [
  | inl interrupted ↦ rw (interrupted, run) (run_from waits r s)
  | inr failed ↦ rw (failed, run) tt
]

-- `do_init` on a new reactor touches no handler; where it gives 0, the socket is the one that
-- `socket` returned.
do_init-initial :
    (size buf_size : ℕ) (s : Results)
    → (do_init (some size) s (initial buf_size)).0 ≡ pos 0
    → let r = (do_init (some size) s (initial buf_size)).1 in
      (r.handlers ≡ [])
      × (r.log ≡ [])
      × (r.fd ≡ s.fd)
      × (r.buf_size ≡ buf_size)
      × (ltb_ℤ s.fd (pos 0) ≡ false)
unfolding do_init epoller_create do_bind
do_init-initial size buf_size s ok = ground (arith, ok, eq_ℤ_iff s.epfd (negsuc 0))

new-IsServing : (r : UdpReactor) → r.handlers ≡ [] → r.log ≡ [] → IsServing r
unfolding IsOrdered handler_of find
new-IsServing r none_there quiet = record {
  ordered = rw quiet tt;
  served = λ id. rw (none_there, quiet) refl;
}

-- What a reactor without a log brings.
due_all :
    (waits : List Waited) (r : UdpReactor) (fd : ℤ) (buf_size : ℕ)
    → r.fd ≡ fd
    → r.buf_size ≡ buf_size
    → r.log ≡ []
    → arrived_all r.fd r.buf_size waits ++ inputs_of r.log ≡ arrived_all fd buf_size waits
due_all waits r fd buf_size same_fd same_size quiet =
    rw (same_fd, same_size, quiet) (append-nil (arrived_all fd buf_size waits))

-- A reactor on which `do_init` gave 0 has the descriptor that `socket` returned, which is not below
-- 0. Over any batches of events from then on, and until a call of `abort`: a handler is
-- created for an address and port only while they have none; of the first event of the socket in
-- each batch, a datagram that leaves bytes in the buffer is delivered to the handler of its sender,
-- once, in order and cut at the buffer's size less one, and nothing else is delivered;
-- an empty one closes that handler and deletes it, and nothing goes to it behind that; the map has
-- just the handlers that were created and not deleted.
pub udp_run-IsServing :
    (size buf_size : ℕ) (s : Results) (waits : List Waited)
    → (do_init (some size) s (initial buf_size)).0 ≡ pos 0
    → (ltb_ℤ s.fd (pos 0) ≡ false)
      × Serves
          (arrived_all s.fd buf_size waits)
          (run (do_init (some size) s (initial buf_size)).1 waits)
udp_run-IsServing size buf_size s waits ok =
    let r = (do_init (some size) s (initial buf_size)).1 in
    let (none_there, quiet, same_fd, same_size, open_fd) = do_init-initial size buf_size s ok in
    (
      open_fd,
      subst (λ due. Serves due (run r waits))
          (due_all waits r s.fd buf_size same_fd same_size quiet)
          (run_from waits r (new-IsServing r none_there quiet)),
    )

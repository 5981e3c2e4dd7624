-- ===== src/UdpReactor/Delivery.antt =====
-- What reaches the handlers of src/UdpReactor.cpp of the datagrams that come.
use cpplib.Prelude.{
  ℕ, ℤ, eq_ℤ, ◌&&◌, List, [], ◌∷◌, ◌++◌, ◌≡◌, refl, if◌then◌else◌, inl, inr, Bool-cases,
  Option-cases, Text, text_key, take, sub_u32,
}
use cpplib.OrderedMap.{find}
use cpplib.UdpReactor.{
  Call, renews, inputs, closes, deletes, UdpReactor, Event, Received, nothing, unreadable, datagram,
  client_id, is_empty, close_client, input_client, receive, svc_loop,
}

-- An address, a port and bytes.
abbrev pub Input : Type 0
Input = Text × ℕ × Text

-- The inputs of a log, newest first, whichever handlers they went to.
abbrev pub inputs_of : List Call → List Input
inputs_of [] = []
inputs_of (renews h ip port ∷ log) = inputs_of log
inputs_of (inputs h ip port buf ∷ log) = (ip, port, buf) ∷ inputs_of log
inputs_of (closes h ip port ∷ log) = inputs_of log
inputs_of (deletes h ∷ log) = inputs_of log

-- What a buffer of a size takes of a datagram, if that is not nothing.
abbrev pub payload : ℕ → Received → List Input
payload buf_size nothing = []
payload buf_size unreadable = []
payload buf_size (datagram ip port bytes) =
    let buf = take (sub_u32 buf_size 1) bytes in if is_empty buf then [] else (ip, port, buf) ∷ []

-- What a batch of events brings: the first event of the socket counts.
abbrev pub arrived : ℤ → ℕ → List Event → List Input
arrived fd buf_size [] = []
arrived fd buf_size (e ∷ events) =
    let rest = arrived fd buf_size events in
    if e.is_in && eq_ℤ fd e.fd then payload buf_size e.received else rest

-- A step that delivers, and keeps the socket and the buffer.
pub record Delivers (r s : UdpReactor) (new : List Input) : Type 0 where
  pub same_fd : s.fd ≡ r.fd
  pub same_size : s.buf_size ≡ r.buf_size
  pub delivered : inputs_of s.log ≡ new ++ inputs_of r.log

pub Delivers-none : (r : UdpReactor) → Delivers r r []
Delivers-none r = record { same_fd = refl; same_size = refl; delivered = refl }

module _ (r : UdpReactor) where
  close_client-Delivers : (ip : Text) (port : ℕ) → Delivers r (close_client ip port r) []
  unfolding close_client
  close_client-Delivers ip port = elim (Option-cases (find (client_id ip port) r.handlers)) [
    | inl e ↦ rw (e, close_client) (Delivers-none r)
    | inr (h, e) ↦
        rw (e, close_client) (record { same_fd = refl; same_size = refl; delivered = refl })
  ]

  input_client-Delivers :
      (ip : Text) (port : ℕ) (buf : Text) (renewed : ℕ)
      → Delivers r (input_client ip port buf renewed r) ((ip, port, buf) ∷ [])
  unfolding input_client
  input_client-Delivers ip port buf renewed =
      elim (Option-cases (find (client_id ip port) r.handlers)) [
        | inl e ↦
            rw (e, input_client) (record { same_fd = refl; same_size = refl; delivered = refl })
        | inr (h, e) ↦
            rw (e, input_client) (record { same_fd = refl; same_size = refl; delivered = refl })
      ]

  receive-Delivers :
      (received : Received) (renewed : ℕ)
      → Delivers r (receive received renewed r) (payload r.buf_size received)
  unfolding receive
  receive-Delivers nothing renewed = Delivers-none r
  receive-Delivers unreadable renewed = Delivers-none r
  receive-Delivers (datagram ip port bytes) renewed =
      let buf = take (sub_u32 r.buf_size 1) bytes in
      elim (Bool-cases (is_empty buf)) [
        | inl none_left ↦ rw none_left (close_client-Delivers ip port)
        | inr some_left ↦ rw some_left (input_client-Delivers ip port buf renewed)
      ]

pub svc_loop-Delivers :
    (events : List Event) (r : UdpReactor)
    → Delivers r (svc_loop events r) (arrived r.fd r.buf_size events)
unfolding svc_loop
svc_loop-Delivers [] r = Delivers-none r
svc_loop-Delivers (e ∷ events) r =
    let rest = svc_loop-Delivers events r in
    elim (Bool-cases (e.is_in && eq_ℤ r.fd e.fd)) [
      | inl own ↦ rw (own, svc_loop) (receive-Delivers r e.received e.renewed)
      | inr other ↦ rw (other, svc_loop) rest
    ]

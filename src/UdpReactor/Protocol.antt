-- ===== src/UdpReactor/Protocol.antt =====
-- The order of the calls of handlers in src/UdpReactor.cpp.
use cpplib.Prelude.{
  ℕ, true, Option, none, some, List, [], ◌∷◌, if◌then◌else◌, ◌≡◌, refl, sym, ◌∙◌, arith, inl, inr,
  Bool-cases, Option-cases, Text, text_key, text_eq, text_eq_iff, take, sub_u32,
}
use cpplib.OrderedMap.{find}
use cpplib.OrderedMap.Laws.{find-insert, find-erase}
use cpplib.UdpReactor.{
  Call, renews, inputs, closes, deletes, UdpReactor, Received, nothing, unreadable, datagram,
  client_id, close_client, input_client, receive, is_empty,
}

-- The handler of a client after the calls of a log.
unfoldable pub handler_of : Text → List Call → Option ℕ
handler_of id [] = none
handler_of id (renews h ip port ∷ log) =
    let before = handler_of id log in if text_eq (client_id ip port) id then some h else before
handler_of id (closes h ip port ∷ log) =
    let before = handler_of id log in if text_eq (client_id ip port) id then none else before
handler_of id (inputs h ip port buf ∷ log) = handler_of id log
handler_of id (deletes h ∷ log) = handler_of id log

-- A handler is created for a client that has none, gets what comes from that client only, and is
-- deleted at once after its close, behind which nothing goes to it.
unfoldable pub IsOrdered : List Call → Type 0
IsOrdered [] = Unit
IsOrdered (renews h ip port ∷ log) = (handler_of (client_id ip port) log ≡ none) × IsOrdered log
IsOrdered (inputs h ip port buf ∷ log) =
    (handler_of (client_id ip port) log ≡ some h) × IsOrdered log
IsOrdered (deletes h ∷ []) = ⊥
IsOrdered (deletes h ∷ closes g ip port ∷ log) =
    (h ≡ g) × (handler_of (client_id ip port) log ≡ some h) × IsOrdered log
IsOrdered (deletes h ∷ renews g ip port ∷ log) = ⊥
IsOrdered (deletes h ∷ inputs g ip port buf ∷ log) = ⊥
IsOrdered (deletes h ∷ deletes g ∷ log) = ⊥
IsOrdered (closes h ip port ∷ log) = ⊥

-- The map has just the handlers that the log leaves.
pub record IsServing (r : UdpReactor) : Type 0 where
  pub ordered : IsOrdered r.log
  pub served : (id : Text) → find id r.handlers ≡ handler_of id r.log

module _ (r : UdpReactor) (s : IsServing r) where
  close_client-IsServing : (ip : Text) (port : ℕ) → IsServing (close_client ip port r)
  unfolding close_client handler_of IsOrdered
  close_client-IsServing ip port = elim (Option-cases (find (client_id ip port) r.handlers)) [
    | inl e ↦ rw (e, close_client) s
    | inr (h, e) ↦
        rw (e, close_client)
          (record {
            ordered = (refl, sym (s.served (client_id ip port)) ∙ e, s.ordered);
            served =
                λ id. ground (arith, find-erase (client_id ip port) id r.handlers, s.served id);
          })
  ]

  input_client-IsServing :
      (ip : Text) (port : ℕ) (buf : Text) (renewed : ℕ)
      → IsServing (input_client ip port buf renewed r)
  unfolding input_client handler_of IsOrdered
  input_client-IsServing ip port buf renewed =
      let id = client_id ip port in
      let own : text_eq id id ≡ true = (text_eq_iff id id).1 refl in
      elim (Option-cases (find id r.handlers)) [
        | inl e ↦
            rw (e, input_client)
              (record {
                ordered = (rw own refl, (sym (s.served id) ∙ e, s.ordered));
                served = λ j. ground (arith, find-insert id j renewed r.handlers, s.served j, e);
              })
        | inr (h, e) ↦
            rw (e, input_client)
              (record { ordered = (sym (s.served id) ∙ e, s.ordered); served = s.served })
      ]

  pub receive-IsServing :
      (received : Received) (renewed : ℕ) → IsServing (receive received renewed r)
  unfolding receive
  receive-IsServing nothing renewed = s
  receive-IsServing unreadable renewed = s
  receive-IsServing (datagram ip port bytes) renewed =
      let buf = take (sub_u32 r.buf_size 1) bytes in
      elim (Bool-cases (is_empty buf)) [
        | inl none_left ↦ rw none_left (close_client-IsServing ip port)
        | inr some_left ↦ rw some_left (input_client-IsServing ip port buf renewed)
      ]

-- ===== src/TcpReactor/Protocol.antt =====
-- The order of the calls of handlers in src/TcpReactor.cpp.
use cpplib.Prelude.{
  ℕ, ℤ, pos, ltb_ℤ, eq_ℤ, eq_ℤ_iff, Bool, true, false, not, ◌&&◌, Option, none, some, List, [], ◌∷◌,
  if◌then◌else◌, ◌≡◌, arith, inl, inr, Bool-cases, Option-cases, int_key, ◌∙◌, sym,
}
use cpplib.OrderedMap.{find}
use cpplib.OrderedMap.Laws.{find-insert}
use cpplib.TMapInt
use cpplib.TMapInt.Spec.{get-find, find-del}
use cpplib.TcpReactor.{
  Call, accepts, inputs, outputs, exceptions, closes, deletes, TcpReactor, Event, has, remove,
  with_handler, called, accept, drop_fd, del_fd,
}

-- The handler that serves a descriptor after the calls of a log.
unfoldable pub handler_of : ℤ → List Call → Option ℕ
handler_of fd [] = none
handler_of fd (accepts ok h f ∷ log) =
    let before = handler_of fd log in if ok && eq_ℤ f fd then some h else before
handler_of fd (closes h f ∷ log) =
    let before = handler_of fd log in if eq_ℤ f fd then none else before
handler_of fd (deletes f ∷ log) =
    let before = handler_of fd log in if eq_ℤ f fd then none else before
handler_of fd (inputs h f ∷ log) = handler_of fd log
handler_of fd (outputs h f ∷ log) = handler_of fd log
handler_of fd (exceptions h f ∷ log) = handler_of fd log

-- A descriptor is accepted while no handler serves it; every other call for it goes to the handler
-- that accepted it, and none behind its close.
unfoldable pub IsOrdered : List Call → Type 0
IsOrdered [] = Unit
IsOrdered (accepts ok h f ∷ log) = (handler_of f log ≡ none) × IsOrdered log
IsOrdered (inputs h f ∷ log) = (handler_of f log ≡ some h) × IsOrdered log
IsOrdered (outputs h f ∷ log) = (handler_of f log ≡ some h) × IsOrdered log
IsOrdered (exceptions h f ∷ log) = (handler_of f log ≡ some h) × IsOrdered log
IsOrdered (closes h f ∷ log) = (handler_of f log ≡ some h) × IsOrdered log
IsOrdered (deletes f ∷ log) = IsOrdered log

abbrev pub is_some : Option ℕ → Bool
is_some none = false
is_some (some h) = true

-- The map has the handlers that the log leaves, and the open descriptors are those served.
pub record IsServing (r : TcpReactor) : Type 0 where
  pub ordered : IsOrdered r.log
  pub served : (fd : ℤ) → find fd r.handlers ≡ handler_of fd r.log
  pub open_served : (fd : ℤ) → has fd r.opened ≡ is_some (handler_of fd r.log)

-- What `accept` documents: a new descriptor is none of those open.
abbrev pub IsFresh : TcpReactor → Event → Type 0
IsFresh r e = has e.conn_fd r.opened ≡ false

has-remove : (fd j : ℤ) (fds : List ℤ) → has j (remove fd fds) ≡ (not (eq_ℤ fd j) && has j fds)
unfolding has remove
has-remove fd j [] = ground arith
has-remove fd j (f ∷ fds) =
    ground (arith, has-remove fd j fds, eq_ℤ_iff f fd, eq_ℤ_iff f j, eq_ℤ_iff fd j)

module _ (r : TcpReactor) (s : IsServing r) where
  -- A call that changes no handler.
  pub inputs-IsServing :
      (h : ℕ) (fd : ℤ) → find fd r.handlers ≡ some h → IsServing (called (inputs h fd) r)
  unfolding called handler_of IsOrdered
  inputs-IsServing h fd e = record {
    ordered = (sym (s.served fd) ∙ e, s.ordered);
    served = s.served;
    open_served = s.open_served;
  }

  pub outputs-IsServing :
      (h : ℕ) (fd : ℤ) → find fd r.handlers ≡ some h → IsServing (called (outputs h fd) r)
  unfolding called handler_of IsOrdered
  outputs-IsServing h fd e = record {
    ordered = (sym (s.served fd) ∙ e, s.ordered);
    served = s.served;
    open_served = s.open_served;
  }

  pub exceptions-IsServing :
      (h : ℕ) (fd : ℤ) → find fd r.handlers ≡ some h → IsServing (called (exceptions h fd) r)
  unfolding called handler_of IsOrdered
  exceptions-IsServing h fd e = record {
    ordered = (sym (s.served fd) ∙ e, s.ordered);
    served = s.served;
    open_served = s.open_served;
  }

  pub closes-IsServing :
      (h : ℕ) (fd : ℤ) → find fd r.handlers ≡ some h → IsServing (drop_fd fd (closes h fd) r)
  unfolding drop_fd handler_of IsOrdered
  closes-IsServing h fd e = record {
    ordered = (sym (s.served fd) ∙ e, s.ordered);
    served = λ j. ground (arith, find-del fd j r.handlers, s.served j);
    open_served = λ j. ground (arith, has-remove fd j r.opened, s.open_served j);
  }

  pub del_fd-IsServing : (fd : ℤ) → IsServing (del_fd fd r)
  unfolding del_fd drop_fd handler_of IsOrdered
  del_fd-IsServing fd = record {
    ordered = s.ordered;
    served = λ j. ground (arith, find-del fd j r.handlers, s.served j);
    open_served = λ j. ground (arith, has-remove fd j r.opened, s.open_served j);
  }

  pub with_handler-IsServing :
      (f : ℕ → TcpReactor → TcpReactor) (fd : ℤ)
      → ((h : ℕ) → find fd r.handlers ≡ some h → IsServing (f h r))
      → IsServing (with_handler f fd r)
  unfolding with_handler
  with_handler-IsServing f fd k = elim (Option-cases (find fd r.handlers)) [
    | inl e ↦ rw (get-find fd r.handlers, e, with_handler) s
    | inr (h, e) ↦ rw (get-find fd r.handlers, e, with_handler) (k h e)
  ]

  pub accept-IsServing : (e : Event) → IsFresh r e → IsServing (accept e r)
  unfolding accept handler_of IsOrdered has TMapInt.insert
  accept-IsServing e fresh =
      let unserved : handler_of e.conn_fd r.log ≡ none =
        ground (arith, fresh, s.open_served e.conn_fd) in
      elim (Bool-cases (ltb_ℤ e.conn_fd (pos 0))) [
        | inl failed ↦ rw failed s
        | inr got ↦ elim (Bool-cases (eq_ℤ e.ret (pos 0))) [
          | inr refused ↦
              rw (got, refused)
                (record {
                  ordered = (unserved, s.ordered);
                  served = s.served;
                  open_served = s.open_served;
                })
          | inl ok ↦
              rw (got, ok)
                (record {
                  ordered = (unserved, s.ordered);
                  served = λ j. ground (
                    arith,
                    find-insert e.conn_fd j e.renewed r.handlers,
                    s.served j,
                    s.served e.conn_fd,
                    unserved,
                  );
                  open_served = λ j. ground (arith, s.open_served j);
                })
        ]
      ]

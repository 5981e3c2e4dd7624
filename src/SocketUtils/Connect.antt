-- ===== src/SocketUtils/Connect.antt =====
-- `connect` of src/SocketUtils.cpp.
use cpplib.Prelude.{
  ℕ, zero, suc, pos, some, List, [], ◌∷◌, ◌++◌, ◌==◌, ◌≡◌, ◌↔◌, refl, arith, ◌⊎◌, inl, inr,
  Bool-cases,
}
use cpplib.SocketUtils.{
  Outcome, returned, failed, Selected, writable, expired, broken, connect_loop, connect,
}

abbrev pub interrupts : ℕ → List Selected
interrupts zero = []
interrupts (suc n) = broken 4 ∷ interrupts n

-- The connection came about while `select` waited, after some interrupts.
abbrev pub IsWritable : List Selected → Type 0
IsWritable selects =
    (n : ℕ) × (more : List Selected) × (selects ≡ interrupts n ++ writable (returned 0) ∷ more)

loop-IsWritable :
    (selects : List Selected) → connect_loop selects ≡ some (pos 0) → IsWritable selects
unfolding connect_loop
loop-IsWritable [] e = cc
loop-IsWritable (writable (returned zero) ∷ selects) e = (0, selects, refl)
loop-IsWritable (writable (returned (suc retval)) ∷ selects) e = absurd (ground (arith, e))
loop-IsWritable (writable (failed errno) ∷ selects) e = cc
loop-IsWritable (expired ∷ selects) e = absurd (ground (arith, e))
loop-IsWritable (broken errno ∷ selects) e = elim (Bool-cases (errno == 4)) [
  | inl four ↦
      let (n, more, eq) = loop-IsWritable selects (ground (arith, four, e)) in
      (suc n, more, ground (arith, four, eq))
  | inr other ↦ absurd (ground (arith, other, e))
]

loop_writable :
    (n : ℕ) (more : List Selected)
    → connect_loop (interrupts n ++ writable (returned 0) ∷ more) ≡ some (pos 0)
unfolding connect_loop
loop_writable zero more = refl
loop_writable (suc n) more = loop_writable n more

-- `connect` returns 0 exactly if `::connect` returned 0 at once, or was in progress and `select`,
-- after some interrupts, found the socket writable with no error.
pub connect_succeeds :
    (outcome : Outcome ℕ) (selects : List Selected)
    → (connect outcome selects ≡ some (pos 0))
      ↔ ((outcome ≡ returned 0) ⊎ ((outcome ≡ failed 115) × IsWritable selects))
unfolding connect
connect_succeeds (returned ret) selects = (
  (λ e. inl (ground (arith, e))),
  (λ h. elim h [ inl e ↦ ground (arith, e) | inr (e, w) ↦ absurd cc ]),
)
connect_succeeds (failed errno) selects = (
  (λ e. elim (Bool-cases (errno == 115)) [
    | inl in_progress ↦
        inr (ground (arith, in_progress), loop-IsWritable selects (ground (arith, in_progress, e)))
    | inr other ↦ absurd (ground (arith, other, e))
  ]),
  (λ h. elim h [
    | inl e ↦ absurd cc
    | inr (e, (n, more, eq)) ↦ ground (arith, e, eq, loop_writable n more)
  ]),
)

-- ===== src/ConnMgtLb/Turns.antt =====
-- Whom `ConnMgtLB::get_conn` of src/ConnMgt/ConnMgtLB.cpp finds.
use cpplib.Prelude.{
  true, false, Option, none, some, List, [], ◌∷◌, ℕ, zero, suc, ◌+◌, ◌-◌, ◌≤◌, ◌<◌, ◌^◌, ◌≡◌, ◌≢◌,
  ◌⊎◌, inl, inr, refl, arith, leb, ◌==◌, if◌then◌else◌, length, get_elem?, u32, Bool-cases,
  ℕ_discrete, subst,
}
use cpplib.ConnMgtLb.{ConnClass, ConnMgtLb, get_loop, get_conn}

get_elem?-some {ℓ} :
    {A : Type ℓ} (xs : List A) (i : ℕ) → i < length xs → (x : A) × (get_elem? xs i ≡ some x)
get_elem?-some [] i h = absurd (omega arith)
get_elem?-some (x ∷ xs) zero h = (x, refl)
get_elem?-some (x ∷ xs) (suc i) h = get_elem?-some xs i (omega arith)

-- The position `k` steps behind `start` in a ring of `n`.
abbrev pub around : ℕ → ℕ → ℕ → ℕ
around n start k = if leb n (start + k) then start + k - n else start + k

module _ (class : ConnClass) where
  open class use {Conn, is_close}

  -- The connection at a position has this state.
  abbrev pub ClosedAt : List Conn → ℕ → Type 0
  ClosedAt conns i = (c : Conn) × (get_elem? conns i ≡ some c) × (is_close c ≡ true)

  -- From the step `k` on: the first open connection, or none at all.
  abbrev pub Found : List Conn → ℕ → ℕ → Option (Option Conn × ℕ) → Type 0
  Found conns start k r =
      ((m : ℕ) × (c : Conn) × (k ≤ m)
        × (m < length conns)
        × (get_elem? conns (around (length conns) start m) ≡ some c)
        × (is_close c ≡ false)
        × ((j : ℕ) → k ≤ j → j < m → ClosedAt conns (around (length conns) start j))
        × (r ≡ some (some c, around (length conns) start m + 1)))
      ⊎ (((j : ℕ) → k ≤ j → j < length conns → ClosedAt conns (around (length conns) start j))
          × (r ≡ some (none, start)))

  closed_from :
      (conns : List Conn) (start k m : ℕ)
      → ClosedAt conns (around (length conns) start k)
      → ((j : ℕ) → k + 1 ≤ j → j < m → ClosedAt conns (around (length conns) start j))
      → (j : ℕ) → k ≤ j
      → j < m
      → ClosedAt conns (around (length conns) start j)
  closed_from conns start k m here later j lo hi = elim (ℕ_discrete k j) [
    | yes e ↦ subst (λ (i : ℕ). ClosedAt conns (around (length conns) start i)) e here
    | no ne ↦ later j (omega arith) hi
  ]

  Found-closed :
      (conns : List Conn) (start k : ℕ) (r : Option (Option Conn × ℕ))
      → ClosedAt conns (around (length conns) start k)
      → Found conns start (k + 1) r
      → Found conns start k r
  Found-closed conns start k r here (inl (m, c, lo, hi, e, live, before, result)) =
      inl (m, c, omega arith, hi, e, live, closed_from conns start k m here before, result)
  Found-closed conns start k r here (inr (all, result)) =
      inr (closed_from conns start k (length conns) here all, result)

  abbrev after : List Conn → ℕ → ℕ
  after conns i = if leb (length conns) (i + 1) then 0 else i + 1

  module _ (fuel : ℕ) (conns : List Conn) (tag i : ℕ) (c : Conn) (small : i + 1 < 2 ^ 32)
      (at : get_elem? conns i ≡ some c) where
    u32_next : u32 (i + 1) ≡ i + 1
    u32_next = omega arith

    loop_open : is_close c ≡ false → get_loop class (suc fuel) conns tag i ≡ some (some c, i + 1)
    unfolding get_loop
    loop_open live = ground (arith, at, live, u32_next)

    loop_closed :
        is_close c ≡ true
        → get_loop class (suc fuel) conns tag i ≡ (
            if after conns i == tag
            then some (none, after conns i)
            else get_loop class fuel conns tag (after conns i))
    unfolding get_loop
    loop_closed closed = ground (arith, at, closed, u32_next)

  after-around :
      (conns : List Conn) (start k : ℕ)
      → start < length conns
      → k + 1 < length conns
      → (after conns (around (length conns) start k) ≡ around (length conns) start (k + 1))
        × (after conns (around (length conns) start k) ≢ start)
  after-around conns start k inside h = (ground arith, λ e. ground (arith, e))

  after_last :
      (conns : List Conn) (start k : ℕ)
      → start < length conns
      → k + 1 ≡ length conns
      → after conns (around (length conns) start k) ≡ start
  after_last conns start k inside h = ground arith

  -- What a round does at its position, given what the rounds behind it find.
  round-Found :
      (fuel : ℕ) (conns : List Conn) (start k : ℕ)
      → length conns < 2 ^ 32
      → start < length conns
      → k < length conns
      → (ClosedAt conns (around (length conns) start k)
          → Found conns start k (
              if after conns (around (length conns) start k) == start
              then some (none, after conns (around (length conns) start k))
              else get_loop class fuel conns start (after conns (around (length conns) start k))))
      → Found conns start k (get_loop class (suc fuel) conns start (around (length conns) start k))
  round-Found fuel conns start k small inside e behind =
      let pos = around (length conns) start k in
      let below : pos < length conns = ground arith in
      let (c, at) = get_elem?-some conns pos below in
      elim (Bool-cases (is_close c)) [
        | inl closed ↦
            rw (loop_closed fuel conns start pos c (omega arith) at closed) (behind (c, at, closed))
        | inr live ↦ inl (
          k,
          c,
          omega arith,
          omega arith,
          at,
          live,
          (λ j lo hi. absurd (omega arith)),
          loop_open fuel conns start pos c (omega arith) at live,
        )
      ]

  last-Found :
      (conns : List Conn) (start k : ℕ) (rest : Option (Option Conn × ℕ))
      → start < length conns
      → k + 1 ≡ length conns
      → ClosedAt conns (around (length conns) start k)
      → Found conns start k (
          if after conns (around (length conns) start k) == start
          then some (none, after conns (around (length conns) start k))
          else rest)
  last-Found conns start k rest inside e here = inr (
    closed_from conns start k (length conns) here (λ j lo hi. absurd (omega arith)),
    ground (arith, after_last conns start k inside e),
  )

  next-Found :
      (conns : List Conn) (start k : ℕ) (loop : ℕ → Option (Option Conn × ℕ))
      → start < length conns
      → k + 1 < length conns
      → ClosedAt conns (around (length conns) start k)
      → Found conns start (k + 1) (loop (around (length conns) start (k + 1)))
      → Found conns start k (
          if after conns (around (length conns) start k) == start
          then some (none, after conns (around (length conns) start k))
          else loop (after conns (around (length conns) start k)))
  next-Found conns start k loop inside e here found =
      let (step, ne) = after-around conns start k inside e in
      subst (Found conns start k) (ground (arith, step, ne))
        (Found-closed conns start k (loop (around (length conns) start (k + 1))) here found)

  loop-Found :
      (fuel : ℕ) (conns : List Conn) (start k : ℕ)
      → length conns < 2 ^ 32
      → start < length conns
      → k + suc fuel ≡ length conns
      → Found conns start k (get_loop class (suc fuel) conns start (around (length conns) start k))
  loop-Found zero conns start k small inside e =
      round-Found 0 conns start k small inside (omega arith)
        (last-Found conns start k _ inside (omega arith))
  loop-Found (suc fuel) conns start k small inside e =
      let found = loop-Found fuel conns start (k + 1) small inside (omega arith) in
      round-Found (suc fuel) conns start k small inside (omega arith) λ here.
        next-Found conns start k (get_loop class (suc fuel) conns start) inside (omega arith) here
          found

  -- The position from which `get_conn` looks.
  abbrev pub start_of : ConnMgtLb class → ℕ
  start_of mgt = if leb (length mgt.conns) mgt.index then 0 else mgt.index

  -- The pool with a new index.
  abbrev pub with_index :
      ConnMgtLb class → Option (Option Conn × ℕ) → Option (Option Conn × ConnMgtLb class)
  with_index mgt none = none
  with_index mgt (some (c, i)) = some (c, record mgt { index = i })

  around_zero : (n start : ℕ) → start < n → around n start 0 ≡ start
  around_zero n start h = ground arith

  -- On a pool of `suc n` connections.
  get_conn-loop :
      (n : ℕ) (conns : List Conn) (mgt : ConnMgtLb class)
      → conns ≡ mgt.conns
      → length conns ≡ suc n
      → get_conn class mgt
        ≡ with_index mgt (get_loop class (suc n) mgt.conns (start_of mgt) (start_of mgt))
  unfolding get_conn
  get_conn-loop n [] mgt e size = absurd (omega arith)
  get_conn-loop n (c ∷ conns) mgt e size = ground (arith, e, size)

  -- On a pool of at least one and less than 2 ^ 32 connections `get_conn` ends and takes turns: it
  -- returns true with the first connection that is open in the circle from the index on, all those
  -- before it being closed, and moves the index behind it; or all are closed, and it returns false
  -- with the index where it began.
  pub get_conn_turns :
      (mgt : ConnMgtLb class)
      → 0 < length mgt.conns
      → length mgt.conns < 2 ^ 32
      → (r : Option (Option Conn × ℕ)) × (get_conn class mgt ≡ with_index mgt r)
        × Found mgt.conns (start_of mgt) 0 r
  get_conn_turns mgt some_conn small =
      let n = length mgt.conns - 1 in
      let start = start_of mgt in
      let inside : start < length mgt.conns = ground arith in
      (
        get_loop class (suc n) mgt.conns start start,
        get_conn-loop n mgt.conns mgt refl (omega arith),
        subst (λ i. Found mgt.conns start 0 (get_loop class (suc n) mgt.conns start i))
            (around_zero (length mgt.conns) start inside)
            (loop-Found n mgt.conns start 0 small inside (omega arith)),
      )

-- ===== src/SocketUtils/Receive.antt =====
-- `recv_n` and `recv` of src/SocketUtils.cpp.
use cpplib.Prelude.{
  ℕ, ◌+◌, ◌-◌, ◌≤◌, ◌<◌, ◌^◌, ℤ, pos, negsuc, true, false, Option, none, some, List, [], ◌∷◌, ◌++◌,
  append_assoc, ◌==◌, if◌then◌else◌, length, length-append, Text, ◌≡◌, refl, arith, ◌⊎◌, inl, inr,
  Bool-cases, ◌∙◌, sym, ap, subst, sub_u32, u32,
}
use cpplib.SocketUtils.{
  Outcome, returned, failed, Transfer, start, received, is_timeout, is_retried, recv_n_loop,
  recv_loop, recv_n, recv, result,
}

-- The bytes that the peer has sent, as `::recv` hands them out.
abbrev pub stream : List (Outcome Text × ℕ) → Text
stream [] = []
stream ((returned chunk, end) ∷ rounds) = chunk ++ stream rounds
stream ((failed errno, end) ∷ rounds) = stream rounds

-- What `::recv` documents: it stores no more bytes than there is room for.
abbrev pub HasRoom : List (Outcome Text × ℕ) → ℕ → Type 0
HasRoom [] size = Unit
HasRoom ((returned chunk, end) ∷ rounds) size =
    (length chunk ≤ size) × HasRoom rounds (size - length chunk)
HasRoom ((failed errno, end) ∷ rounds) size = HasRoom rounds size

-- A prefix of the stream has been received; the result 1 has filled the buffer, 0 is a closed
-- connection, 2 a timeout and -1 an error.
abbrev pub IsReceived : ℕ → Text → Option (ℤ × ℕ × Text) → Type 0
IsReceived size source none = Unit
IsReceived size source (some (code, len, bytes)) =
    ((rest : Text) × (source ≡ bytes ++ rest))
    × (length bytes ≡ len)
    × (((code ≡ pos 1) × (len ≡ size))
        ⊎ ((code ≡ pos 0) × (len ≤ size))
        ⊎ ((code ≡ pos 2) × (len ≤ size))
        ⊎ ((code ≡ negsuc 0) × (len ≤ size)))

record IsStored (size : ℕ) (t : Transfer) : Type 0 where
  pub counted : length t.bytes ≡ t.len
  pub total : t.len + t.buf_size ≡ size

module _ (size : ℕ) (small : size < 2 ^ 32) where
  received-IsStored :
      (chunk : Text) (end : ℕ) (t : Transfer)
      → length chunk ≤ t.buf_size
      → IsStored size t
      → IsStored size (received chunk end t)
  received-IsStored chunk end t room s = record {
    counted = omega (arith, length-append t.bytes chunk, s.counted, s.total);
    total = omega (arith, s.total);
  }

  module _ (timeout begin_usec : ℕ) where
    timeout-IsReceived :
        (t : Transfer) (more : Text) (rest : Option (ℤ × Transfer))
        → IsStored size t
        → IsReceived size (t.bytes ++ more) (result rest)
        → IsReceived size
            (t.bytes ++ more)
            (result (if is_timeout timeout begin_usec t.end_usec then some (pos 2, t) else rest))
    timeout-IsReceived t more rest s h =
        elim (Bool-cases (is_timeout timeout begin_usec t.end_usec)) [
          | inl e ↦ rw e ((more, refl), s.counted, inr (inr (inl (refl, omega (arith, s.total)))))
          | inr e ↦ rw e h
        ]

    retry-IsReceived :
        (errno : ℕ) (t : Transfer) (more : Text) (rest : Option (ℤ × Transfer))
        → IsStored size t
        → IsReceived size (t.bytes ++ more) (result rest)
        → IsReceived size
            (t.bytes ++ more)
            (result (if is_retried errno then rest else some (negsuc 0, t)))
    retry-IsReceived errno t more rest s h = elim (Bool-cases (is_retried errno)) [
      | inl e ↦ rw e h
      | inr e ↦ rw e ((more, refl), s.counted, inr (inr (inr (refl, omega (arith, s.total)))))
    ]

    full-IsReceived :
        (chunk : Text) (end : ℕ) (t : Transfer) (more : Text) (rest : Option (ℤ × Transfer))
        → length chunk ≤ t.buf_size
        → IsStored size t
        → IsReceived size ((t.bytes ++ chunk) ++ more) (result rest)
        → IsReceived size (t.bytes ++ (chunk ++ more)) (
            result (
              if sub_u32 t.buf_size (length chunk) == 0
              then some (pos 1, received chunk end t)
              else rest))
    full-IsReceived chunk end t more rest room s h =
        let s' = received-IsStored chunk end t room s in
        elim (Bool-cases (sub_u32 t.buf_size (length chunk) == 0)) [
          | inl e ↦ rw e (
            (more, sym (append_assoc t.bytes chunk more)),
            s'.counted,
            inl (refl, ground (arith, e, s'.total)),
          )
          | inr e ↦ rw e (
              subst (λ (source : Text). IsReceived size source (result rest))
                (append_assoc t.bytes chunk more) h)
        ]

    recv_n_loop-IsReceived :
        (rounds : List (Outcome Text × ℕ)) (t : Transfer)
        → HasRoom rounds t.buf_size
        → IsStored size t
        → IsReceived size
            (t.bytes ++ stream rounds)
            (result (recv_n_loop timeout begin_usec rounds t))
    unfolding recv_n_loop
    recv_n_loop-IsReceived [] t room s = timeout-IsReceived t [] none s tt
    recv_n_loop-IsReceived ((returned [], end) ∷ rounds) t room s = (
      (stream rounds, refl),
      s.counted,
      elim (Bool-cases (is_timeout timeout begin_usec t.end_usec)) [
        | inl e ↦ inr (inr (inl (rw e refl, omega (arith, s.total))))
        | inr e ↦ inr (inl (rw e refl, omega (arith, s.total)))
      ],
    )
    recv_n_loop-IsReceived ((returned (b ∷ bytes), end) ∷ rounds) t room s =
        let chunk = b ∷ bytes in
        let left : t.buf_size - length chunk ≡ sub_u32 t.buf_size (length chunk) =
          omega (arith, s.total, room.0) in
        timeout-IsReceived t (chunk ++ stream rounds) _ s (
          full-IsReceived chunk end t (stream rounds) _ room.0 s (
            recv_n_loop-IsReceived rounds (received chunk end t)
              (subst (HasRoom rounds) left room.1) (received-IsStored chunk end t room.0 s)))
    recv_n_loop-IsReceived ((failed errno, end) ∷ rounds) t room s =
        let waits : IsStored size (record t { end_usec = end }) = record {
          counted = s.counted;
          total = s.total;
        } in
        timeout-IsReceived t (stream rounds) _ s (
          retry-IsReceived errno t (stream rounds) _ s
            (recv_n_loop-IsReceived rounds (record t { end_usec = end }) room waits))

    -- Where `::recv` never stores more than there is room for, `recv_n` has at its return stored
    -- `len` bytes, the first of those that the peer sent, in order and with no gap; its result is
    -- 1 only if they fill the buffer, and otherwise 0, 2 or -1.
    pub recv_n_receives :
        (rounds : List (Outcome Text × ℕ))
        → HasRoom rounds size
        → IsReceived size (stream rounds) (recv_n timeout begin_usec size rounds)
    unfolding recv_n
    recv_n_receives rounds room =
        recv_n_loop-IsReceived rounds (start size) room
          (record { counted = refl; total = omega arith })

-- The calls that are made again.
abbrev pub IsWaiting : ℕ → ℕ → List (Outcome Text × ℕ) → Type 0
IsWaiting timeout begin_usec [] = Unit
IsWaiting timeout begin_usec ((returned chunk, end) ∷ rounds) = ⊥
IsWaiting timeout begin_usec ((failed errno, end) ∷ rounds) =
    (is_retried errno ≡ true)
    × (is_timeout timeout begin_usec end ≡ false)
    × IsWaiting timeout begin_usec rounds

module _ (timeout begin_usec : ℕ) where
  recv_loop_first :
      (waits more : List (Outcome Text × ℕ)) (b : ℕ) (bytes : Text) (end : ℕ) (t : Transfer)
      → is_timeout timeout begin_usec t.end_usec ≡ false
      → IsWaiting timeout begin_usec waits
      → result (recv_loop timeout begin_usec (waits ++ (returned (b ∷ bytes), end) ∷ more) t)
        ≡ some (pos 1, u32 (t.len + length (b ∷ bytes)), t.bytes ++ b ∷ bytes)
  unfolding recv_loop
  recv_loop_first [] more b bytes end t early w = rw early refl
  recv_loop_first ((returned chunk, at) ∷ waits) more b bytes end t early w = absurd w
  recv_loop_first ((failed errno, at) ∷ waits) more b bytes end t early w =
      rw (early, w.0) (recv_loop_first waits more b bytes end (record t { end_usec = at }) w.1 w.2)

  -- `recv` waits on as long as there is nothing to receive, the calls are interrupted or would
  -- block, and the time limit is ahead; the first bytes that `::recv` stores it returns, with the
  -- result 1 and their number.
  pub recv_first :
      (waits more : List (Outcome Text × ℕ)) (size b end : ℕ) (bytes : Text)
      → IsWaiting timeout begin_usec waits
      → length (b ∷ bytes) < 2 ^ 32
      → recv timeout begin_usec size (waits ++ (returned (b ∷ bytes), end) ∷ more)
        ≡ some (pos 1, length (b ∷ bytes), b ∷ bytes)
  unfolding recv
  recv_first waits more size b end bytes w small =
      let fits : u32 (0 + length (b ∷ bytes)) ≡ length (b ∷ bytes) = omega arith in
      recv_loop_first waits more b bytes end (start size) refl w
      ∙ ap (λ (n : ℕ). some (pos 1, n, b ∷ bytes)) fits

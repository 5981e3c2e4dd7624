-- ===== src/SocketUtils/Send.antt =====
-- `send_n` and `send` of src/SocketUtils.cpp.
use cpplib.Prelude.{
  subst, ℕ, zero, suc, ◌+◌, ◌-◌, ◌≤◌, ◌<◌, ◌^◌, ℤ, pos, negsuc, Bool, true, false, Option, none,
  some, List, [], ◌∷◌, ◌++◌, ◌==◌, if◌then◌else◌, length, take, drop, Text, ◌≡◌, refl, arith, ◌⊎◌,
  inl, inr, Bool-cases, ◌∙◌, sym, ap, sub_u32, u32,
}
use cpplib.SocketUtils.{
  Outcome, returned, failed, Transfer, start, sent, is_timeout, is_retried, send_n_loop, send_n,
  result,
}

-- What `::send` documents: it takes no more bytes than it is given.
abbrev pub Fits : List (Outcome ℕ × ℕ) → ℕ → Type 0
Fits [] size = Unit
Fits ((returned ret, end) ∷ rounds) size = (ret ≤ size) × Fits rounds (size - ret)
Fits ((failed errno, end) ∷ rounds) size = Fits rounds size

-- The bytes up to `len` have been sent, and `buf_size` is the number of the others.
record IsPrefix (buf : Text) (t : Transfer) : Type 0 where
  pub bytes : t.bytes ≡ take t.len buf
  pub total : t.len + t.buf_size ≡ length buf

-- The result 0 has sent the whole buffer; 2 is a timeout and -1 an error.
abbrev pub IsSent : Text → Option (ℤ × ℕ × Text) → Type 0
IsSent buf none = Unit
IsSent buf (some (code, len, bytes)) =
    (bytes ≡ take len buf)
    × (len ≤ length buf)
    × (((code ≡ pos 0) × (len ≡ length buf)) ⊎ (code ≡ pos 2) ⊎ (code ≡ negsuc 0))

take_nil : (n : ℕ) → take {A = ℕ} n [] ≡ []
take_nil zero = refl
take_nil (suc n) = refl

take_zero : (s : Text) → take 0 s ≡ []
take_zero [] = refl
take_zero (c ∷ s) = refl

take-more : (buf : Text) (m n : ℕ) → take (m + n) buf ≡ take m buf ++ take n (drop m buf)
take-more buf zero n = ground (arith, take_zero buf)
take-more [] (suc m) n = ground (arith, take_nil (suc m + n), take_nil n)
take-more (c ∷ buf) (suc m) n =
    let next : suc m + n ≡ suc (m + n) = omega arith in
    rw next (ap (λ (s : Text). c ∷ s) (take-more buf m n))

take_all : (buf : Text) (n : ℕ) → n ≡ length buf → take n buf ≡ buf
take_all [] zero e = refl
take_all [] (suc n) e = refl
take_all (c ∷ buf) zero e = absurd (omega arith)
take_all (c ∷ buf) (suc n) e = ap (λ (s : Text). c ∷ s) (take_all buf n (omega arith))

module _ (buf : Text) (small : length buf < 2 ^ 32) where
  sent-IsPrefix :
      (ret end : ℕ) (t : Transfer)
      → ret ≤ t.buf_size
      → IsPrefix buf t
      → IsPrefix buf (sent buf ret end t)
  sent-IsPrefix ret end t fits p =
      let next : u32 (t.len + ret) ≡ t.len + ret = omega (arith, p.total) in
      record {
        bytes =
            ap (λ (s : Text). s ++ take ret (drop t.len buf)) p.bytes
            ∙ sym (take-more buf t.len ret)
            ∙ ap (λ (n : ℕ). take n buf) (sym next);
        total = omega (arith, p.total);
      }

  moved-IsSent :
      (code : ℤ) (t : Transfer)
      → IsPrefix buf t
      → ((code ≡ pos 0) × (t.len ≡ length buf)) ⊎ (code ≡ pos 2) ⊎ (code ≡ negsuc 0)
      → IsSent buf (result (some (code, t)))
  moved-IsSent code t p c = (p.bytes, omega (arith, p.total), c)

  module _ (timeout begin_usec : ℕ) where
    timeout-IsSent :
        (t : Transfer) (rest : Option (ℤ × Transfer))
        → IsPrefix buf t
        → IsSent buf (result rest)
        → IsSent buf
            (result (if is_timeout timeout begin_usec t.end_usec then some (pos 2, t) else rest))
    timeout-IsSent t rest p h = elim (Bool-cases (is_timeout timeout begin_usec t.end_usec)) [
      | inl e ↦ rw e (moved-IsSent (pos 2) t p (inr (inl refl)))
      | inr e ↦ rw e h
    ]

    retry-IsSent :
        (errno : ℕ) (t : Transfer) (rest : Option (ℤ × Transfer))
        → IsPrefix buf t
        → IsSent buf (result rest)
        → IsSent buf (result (if is_retried errno then rest else some (negsuc 0, t)))
    retry-IsSent errno t rest p h = elim (Bool-cases (is_retried errno)) [
      | inl e ↦ rw e h
      | inr e ↦ rw e (moved-IsSent (negsuc 0) t p (inr (inr refl)))
    ]

    full-IsSent :
        (ret end : ℕ) (t : Transfer) (rest : Option (ℤ × Transfer))
        → ret ≤ t.buf_size
        → IsPrefix buf t
        → IsSent buf (result rest)
        → IsSent buf (
            result (if sub_u32 t.buf_size ret == 0 then some (pos 0, sent buf ret end t) else rest))
    full-IsSent ret end t rest fits p h =
        let q = sent-IsPrefix ret end t fits p in
        elim (Bool-cases (sub_u32 t.buf_size ret == 0)) [
          | inl e ↦
              rw e (
                moved-IsSent (pos 0) (sent buf ret end t) q
                  (inl (refl, ground (arith, e, q.total))))
          | inr e ↦ rw e h
        ]

    send_n_loop-IsSent :
        (rounds : List (Outcome ℕ × ℕ)) (t : Transfer)
        → Fits rounds t.buf_size
        → IsPrefix buf t
        → IsSent buf (result (send_n_loop timeout begin_usec buf rounds t))
    unfolding send_n_loop
    send_n_loop-IsSent [] t fits p = timeout-IsSent t none p tt
    send_n_loop-IsSent ((returned ret, end) ∷ rounds) t fits p =
        let left : t.buf_size - ret ≡ sub_u32 t.buf_size ret = omega (arith, p.total, fits.0) in
        timeout-IsSent t _ p (
          full-IsSent ret end t _ fits.0 p (
            send_n_loop-IsSent rounds (sent buf ret end t) (subst (Fits rounds) left fits.1)
              (sent-IsPrefix ret end t fits.0 p)))
    send_n_loop-IsSent ((failed errno, end) ∷ rounds) t fits p =
        let waits : IsPrefix buf (record t { end_usec = end }) = record {
          bytes = p.bytes;
          total = p.total;
        } in
        timeout-IsSent t _ p (
          retry-IsSent errno t _ p
            (send_n_loop-IsSent rounds (record t { end_usec = end }) fits waits))

    -- Where `::send` never takes more than it is given, `send_n` has at its return sent the first
    -- `len` bytes of its buffer, in order and none twice, however they were split up; its result
    -- is 0 only if they are all bytes, and otherwise 2 or -1, never the 1 that the comment in
    -- src/SocketUtils.h names.
    pub send_n_sends :
        (rounds : List (Outcome ℕ × ℕ))
        → Fits rounds (length buf)
        → IsSent buf (send_n timeout begin_usec buf rounds)
    unfolding send_n
    send_n_sends rounds fits =
        send_n_loop-IsSent rounds (start (length buf)) fits
          (record { bytes = sym (take_zero buf); total = omega arith })

-- One of the readings of the clock is late enough.
abbrev pub IsLate : ℕ → ℕ → List (Outcome ℕ × ℕ) → Type 0
IsLate timeout begin_usec [] = ⊥
IsLate timeout begin_usec ((outcome, end) ∷ rounds) =
    (is_timeout timeout begin_usec end ≡ true) ⊎ IsLate timeout begin_usec rounds

module _ (timeout begin_usec : ℕ) (buf : Text) where
  late-send_n_loop :
      (rounds : List (Outcome ℕ × ℕ)) (t : Transfer)
      → is_timeout timeout begin_usec t.end_usec ≡ true
      → send_n_loop timeout begin_usec buf rounds t ≡ some (pos 2, t)
  unfolding send_n_loop
  late-send_n_loop [] t late = rw late refl
  late-send_n_loop ((returned ret, end) ∷ rounds) t late = rw late refl
  late-send_n_loop ((failed errno, end) ∷ rounds) t late = rw late refl

  abbrev Ends : Option (ℤ × Transfer) → Type 0
  Ends r = (x : ℤ × Transfer) × (r ≡ some x)

  Ends-if :
      (c : Bool) (x : ℤ × Transfer) (rest : Option (ℤ × Transfer))
      → Ends rest
      → Ends (if c then some x else rest)
  Ends-if true x rest h = (x, refl)
  Ends-if false x rest h = h

  Ends-else :
      (c : Bool) (x : ℤ × Transfer) (rest : Option (ℤ × Transfer))
      → Ends rest
      → Ends (if c then rest else some x)
  Ends-else true x rest h = h
  Ends-else false x rest h = (x, refl)

  -- What follows a round with this reading ends.
  next-Ends :
      (rounds : List (Outcome ℕ × ℕ)) (t : Transfer)
      → (is_timeout timeout begin_usec t.end_usec ≡ true) ⊎ IsLate timeout begin_usec rounds
      → Ends (send_n_loop timeout begin_usec buf rounds t)
  unfolding send_n_loop
  next-Ends rounds t (inl late) = ((pos 2, t), late-send_n_loop rounds t late)
  next-Ends [] t (inr late) = absurd late
  next-Ends ((returned ret, end) ∷ rounds) t (inr late) =
      Ends-if (is_timeout timeout begin_usec t.end_usec) (pos 2, t) _
        (Ends-if (sub_u32 t.buf_size ret == 0) (pos 0, sent buf ret end t) _
          (next-Ends rounds (sent buf ret end t) late))
  next-Ends ((failed errno, end) ∷ rounds) t (inr late) =
      Ends-if (is_timeout timeout begin_usec t.end_usec) (pos 2, t) _
        (Ends-else (is_retried errno) (negsuc 0, t) _
          (next-Ends rounds (record t { end_usec = end }) late))

  -- `send_n` ends no later than the round in which the clock is the time limit behind the start,
  -- whatever the calls of `::send` return.
  pub send_n_ends :
      (rounds : List (Outcome ℕ × ℕ))
      → IsLate timeout begin_usec rounds
      → (r : ℤ × ℕ × Text) × (send_n timeout begin_usec buf rounds ≡ some r)
  unfolding send_n
  send_n_ends rounds late =
      let (x, e) = next-Ends rounds (start (length buf)) (inr late) in
      ((x.0, x.1.len, x.1.bytes), rw e refl)

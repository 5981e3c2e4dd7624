-- ===== src/SocketUtils.antt =====
-- src/SocketUtils.cpp: the methods that send, receive and connect. The system calls are not of
-- the repository: what each call of a run returns is an argument, one entry for each round of a
-- loop. `none` is a loop that goes on behind the last entry.
pub mod Closing
pub mod Send
pub mod Receive
pub mod Connect
pub mod Options
use cpplib.Prelude.{
  ℕ, zero, suc, ◌+◌, ◌-◌, ◌%◌, ◌^◌, ℤ, pos, negsuc, Bool, true, false, not, ◌&&◌, ◌||◌, Option,
  none, some, List, [], ◌∷◌, ◌++◌, ◌==◌, leb, ltb, if◌then◌else◌, length, take, drop, Text, u32,
  sub_u32, sub_u64,
}

-- A system call that returned a value, or -1 with an errno.
pub data Outcome {ℓ} (A : Type ℓ) : Type ℓ where
  returned : A → Outcome A
  failed : ℕ → Outcome A

-- `EAGAIN` and `EINTR` of Linux.
abbrev pub is_retried : ℕ → Bool
is_retried errno = (errno == 11) || (errno == 4)

-- The locals of a loop: `len` and `buf_size`, the time `end_usec`, and the bytes moved so far.
pub record Transfer : Type 0 where
  pub len : ℕ
  pub buf_size : ℕ
  pub end_usec : ℕ
  pub bytes : Text

abbrev pub start : ℕ → Transfer
start size = record { len = 0; buf_size = size; end_usec = 0; bytes = [] }

-- The test ahead of each round.
abbrev pub is_timeout : ℕ → ℕ → ℕ → Bool
is_timeout timeout begin_usec end_usec =
    not (end_usec == 0) && leb timeout (sub_u64 end_usec begin_usec)

-- `::send` took the first `ret` of the bytes it was given.
abbrev pub sent : Text → ℕ → ℕ → Transfer → Transfer
sent buf ret end t = record {
  len = u32 (t.len + ret);
  buf_size = sub_u32 t.buf_size ret;
  end_usec = end;
  bytes = t.bytes ++ take ret (drop t.len buf);
}

-- `::recv` stored bytes behind those that were there.
abbrev pub received : Text → ℕ → Transfer → Transfer
received chunk end t = record {
  len = u32 (t.len + length chunk);
  buf_size = sub_u32 t.buf_size (length chunk);
  end_usec = end;
  bytes = t.bytes ++ chunk;
}

module _ (timeout begin_usec : ℕ) where
  pub send_n_loop : Text → List (Outcome ℕ × ℕ) → Transfer → Option (ℤ × Transfer)
  send_n_loop buf [] t = if is_timeout timeout begin_usec t.end_usec then some (pos 2, t) else none
  send_n_loop buf ((returned ret, end) ∷ rounds) t =
      let more = send_n_loop buf rounds (sent buf ret end t) in
      if is_timeout timeout begin_usec t.end_usec
      then some (pos 2, t)
      else if sub_u32 t.buf_size ret == 0
      then some (pos 0, sent buf ret end t)
      else more
  send_n_loop buf ((failed errno, end) ∷ rounds) t =
      let more = send_n_loop buf rounds (record t { end_usec = end }) in
      if is_timeout timeout begin_usec t.end_usec
      then some (pos 2, t)
      else if is_retried errno
      then more
      else some (negsuc 0, t)

  pub send_loop : Text → List (Outcome ℕ × ℕ) → Transfer → Option (ℤ × Transfer)
  send_loop buf [] t = if is_timeout timeout begin_usec t.end_usec then some (pos 2, t) else none
  send_loop buf ((returned ret, end) ∷ rounds) t =
      if is_timeout timeout begin_usec t.end_usec
      then some (pos 2, t)
      else some (pos 0, sent buf ret end t)
  send_loop buf ((failed errno, end) ∷ rounds) t =
      let more = send_loop buf rounds (record t { end_usec = end }) in
      if is_timeout timeout begin_usec t.end_usec
      then some (pos 2, t)
      else if is_retried errno
      then more
      else some (negsuc 0, t)

  pub recv_n_loop : List (Outcome Text × ℕ) → Transfer → Option (ℤ × Transfer)
  recv_n_loop [] t = if is_timeout timeout begin_usec t.end_usec then some (pos 2, t) else none
  recv_n_loop ((returned [], end) ∷ rounds) t =
      some (if is_timeout timeout begin_usec t.end_usec then pos 2 else pos 0, t)
  recv_n_loop ((returned (b ∷ chunk), end) ∷ rounds) t =
      let more = recv_n_loop rounds (received (b ∷ chunk) end t) in
      if is_timeout timeout begin_usec t.end_usec
      then some (pos 2, t)
      else if sub_u32 t.buf_size (length (b ∷ chunk)) == 0
      then some (pos 1, received (b ∷ chunk) end t)
      else more
  recv_n_loop ((failed errno, end) ∷ rounds) t =
      let more = recv_n_loop rounds (record t { end_usec = end }) in
      if is_timeout timeout begin_usec t.end_usec
      then some (pos 2, t)
      else if is_retried errno
      then more
      else some (negsuc 0, t)

  pub recv_loop : List (Outcome Text × ℕ) → Transfer → Option (ℤ × Transfer)
  recv_loop [] t = if is_timeout timeout begin_usec t.end_usec then some (pos 2, t) else none
  recv_loop ((returned [], end) ∷ rounds) t =
      some (if is_timeout timeout begin_usec t.end_usec then pos 2 else pos 0, t)
  recv_loop ((returned (b ∷ chunk), end) ∷ rounds) t =
      if is_timeout timeout begin_usec t.end_usec
      then some (pos 2, t)
      else some (pos 1, received (b ∷ chunk) end t)
  recv_loop ((failed errno, end) ∷ rounds) t =
      let more = recv_loop rounds (record t { end_usec = end }) in
      if is_timeout timeout begin_usec t.end_usec
      then some (pos 2, t)
      else if is_retried errno
      then more
      else some (negsuc 0, t)

-- The results are the code, the caller's `len` and the bytes that were moved: those that
-- `::send` took, or those stored in the buffer.
abbrev pub result : Option (ℤ × Transfer) → Option (ℤ × ℕ × Text)
result none = none
result (some (code, t)) = some (code, t.len, t.bytes)

module _ (timeout begin_usec : ℕ) where
  unfoldable pub send_n : Text → List (Outcome ℕ × ℕ) → Option (ℤ × ℕ × Text)
  unfolding send_n_loop
  send_n buf rounds = result (send_n_loop timeout begin_usec buf rounds (start (length buf)))

  unfoldable pub send : Text → List (Outcome ℕ × ℕ) → Option (ℤ × ℕ × Text)
  unfolding send_loop
  send buf rounds = result (send_loop timeout begin_usec buf rounds (start (length buf)))

  unfoldable pub recv_n : ℕ → List (Outcome Text × ℕ) → Option (ℤ × ℕ × Text)
  unfolding recv_n_loop
  recv_n size rounds = result (recv_n_loop timeout begin_usec rounds (start size))

  unfoldable pub recv : ℕ → List (Outcome Text × ℕ) → Option (ℤ × ℕ × Text)
  unfolding recv_loop
  recv size rounds = result (recv_loop timeout begin_usec rounds (start size))

-- `send_s`: one call; the caller's `len` changes only on a partial send.
unfoldable pub send_s : ℕ → Outcome ℕ → ℤ × ℕ
send_s len outcome = elim outcome [
  | returned ret ↦ if leb len ret then (pos 0, len) else (pos 2, ret)
  | failed errno ↦ (negsuc 0, len)
]

-- What a `select` for writing returned, and `getsockopt` behind it with the value of SO_ERROR.
pub data Selected : Type 0 where
  writable : Outcome ℕ → Selected
  expired : Selected
  broken : ℕ → Selected

-- The loop on `select`: 4 is `EINTR`.
pub connect_loop : List Selected → Option ℤ
connect_loop [] = none
connect_loop (writable (returned retval) ∷ selects) = some (if retval == 0 then pos 0 else negsuc 0)
connect_loop (writable (failed errno) ∷ selects) = some (negsuc 0)
connect_loop (expired ∷ selects) = some (pos 2)
connect_loop (broken errno ∷ selects) =
    let more = connect_loop selects in if errno == 4 then more else some (negsuc 0)

-- `connect`, by the outcome of `::connect`: 115 is `EINPROGRESS`.
unfoldable pub connect : Outcome ℕ → List Selected → Option ℤ
unfolding connect_loop
connect outcome selects = elim outcome [
  | returned ret ↦ some (pos ret)
  | failed errno ↦ if errno == 115 then connect_loop selects else some (negsuc 0)
]

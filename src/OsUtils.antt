-- ===== src/OsUtils.antt =====
-- src/OSUtils.cpp. What the system calls return is an argument.
pub mod ThreadId
use cpplib.Prelude.{
  ℕ, zero, suc, ◌+◌, ◌-◌, ◌/◌, ◌%◌, ℤ, Bool, true, false, Option, none, some, List, [], ◌∷◌, ◌++◌,
  Text, codes, length, ltb, leb, if◌then◌else◌,
}

abbrev hex_digit : ℕ → ℕ
hex_digit d = if ltb d 10 then b'0' + d else b'a' + (d - 10)

-- `%lx`, with one round of fuel for each digit.
hex_digits : ℕ → ℕ → Text
hex_digits zero n = []
hex_digits (suc fuel) n =
    let front = hex_digits fuel (n / 16) in
    if ltb n 16 then hex_digit n ∷ [] else front ++ hex_digit (n % 16) ∷ []

-- `0x%lx`
unfoldable pub print_id : ℕ → Text
unfolding hex_digits
print_id id = codes "0x" ++ hex_digits (suc id) id

-- `GetThreadId`, by what `pthread_self` returns, and whether `asprintf` succeeds where the buffer
-- of 32 bytes is too small; `none` is `bad_alloc`.
unfoldable pub get_thread_id : ℕ → Bool → Option Text
unfolding print_id
get_thread_id id allocated =
    if leb 32 (length (print_id id))
    then (if allocated then some (print_id id) else none)
    else some (print_id id)

-- `get_rlimit`
unfoldable pub get_rlimit : ℤ → ℤ
get_rlimit ret = ret

-- The loop of `signal_mask` over its arguments: `sigaddset` puts a signal into the set, or fails
-- where the number is that of no signal.
unfoldable pub sigset : (ℤ → Bool) → List ℤ → List ℤ → List ℤ
sigset is_signal [] set = set
sigset is_signal (sig ∷ sigs) set = sigset is_signal sigs (if is_signal sig then sig ∷ set else set)

-- `signal_mask`: the result of `pthread_sigmask`, and the set that it is called with.
unfoldable pub signal_mask : (ℤ → Bool) → List ℤ → ℤ → ℤ × List ℤ
unfolding sigset
signal_mask is_signal sigs masked = (masked, sigset is_signal sigs [])

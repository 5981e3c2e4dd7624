-- ===== src/OsUtils/ThreadId.antt =====
-- `GetThreadId` of src/OSUtils.cpp writes the id of a thread.
use cpplib.Prelude.{
  ℕ, zero, suc, ◌+◌, ◌-◌, ◌*◌, ◌/◌, ◌%◌, ◌≤◌, ◌<◌, ◌^◌, Bool, false, some, [], ◌∷◌, ◌++◌, Text,
  length, length-append, ltb, leb, if◌then◌else◌, ◌≡◌, refl, ◌∙◌, arith, inl, inr, Bool-cases,
}
use cpplib.OsUtils.{hex_digit, hex_digits, print_id, get_thread_id}

-- The number that a digit stands for, and that digits spell behind others.
abbrev digit_of : ℕ → ℕ
digit_of c = if ltb c b'a' then c - b'0' else c - b'a' + 10

abbrev pub hex_value : ℕ → Text → ℕ
hex_value n [] = n
hex_value n (c ∷ s) = hex_value (n * 16 + digit_of c) s

digit_of-hex_digit : (d : ℕ) → d < 16 → digit_of (hex_digit d) ≡ d
digit_of-hex_digit d h = ground arith

hex_value-append : (n : ℕ) (s t : Text) → hex_value n (s ++ t) ≡ hex_value (hex_value n s) t
hex_value-append n [] t = refl
hex_value-append n (c ∷ s) t = hex_value-append (n * 16 + digit_of c) s t

hex_value-hex_digits : (fuel n : ℕ) → n < fuel → hex_value 0 (hex_digits fuel n) ≡ n
unfolding hex_digits
hex_value-hex_digits zero n h = absurd (omega arith)
hex_value-hex_digits (suc fuel) n h = elim (Bool-cases (ltb n 16)) [
  | inl e ↦ rw e (omega (arith, digit_of-hex_digit n (ground (arith, e))))
  | inr e ↦
      let more : n / 16 < fuel = ground (arith, e, h) in
      let front = hex_value-hex_digits fuel (n / 16) more in
      let last = digit_of-hex_digit (n % 16) (omega arith) in
      rw e (
        hex_value-append 0 (hex_digits fuel (n / 16)) (hex_digit (n % 16) ∷ [])
        ∙ omega (arith, front, last))
]

-- 16 to the power of a width.
abbrev power : ℕ → ℕ
power zero = 1
power (suc w) = 16 * power w

length-hex_digits : (fuel w n : ℕ) → n < power (suc w) → length (hex_digits fuel n) ≤ suc w
unfolding hex_digits
length-hex_digits zero w n h = omega arith
length-hex_digits (suc fuel) zero n h = ground (arith, h)
length-hex_digits (suc fuel) (suc w) n h = elim (Bool-cases (ltb n 16)) [
  | inl e ↦ rw e (omega arith)
  | inr e ↦ rw e (
      omega (
        arith,
        length-append (hex_digits fuel (n / 16)) (hex_digit (n % 16) ∷ []),
        length-hex_digits fuel w (n / 16) (omega (arith, h)),
      ))
]

-- The id of a thread, of 64 bits, always fits into the buffer: nothing is allocated, and
-- `bad_alloc` is not thrown. The text is `0x` and hexadecimal digits that spell the id, so two
-- threads have different texts.
pub thread_id_spells :
    (id : ℕ) (allocated : Bool)
    → id < 2 ^ 64
    → (text : Text) × (get_thread_id id allocated ≡ some (b'0' ∷ b'x' ∷ text))
      × (hex_value 0 text ≡ id)
      × (length text ≤ 16)
unfolding get_thread_id print_id
thread_id_spells id allocated h =
    let short = length-hex_digits (suc id) 15 id h in
    let fits : leb 32 (length (print_id id)) ≡ false = ground (arith, short) in
    (hex_digits (suc id) id, rw fits refl, hex_value-hex_digits (suc id) id (omega arith), short)

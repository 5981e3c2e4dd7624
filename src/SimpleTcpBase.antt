-- ===== src/SimpleTcpBase.antt =====
-- src/SimpleTcpBase.cpp: the two methods `WriteData`. What each call of `send` returns is an
-- argument. Values of type `int` are integers, since the source leaves their overflow undefined.
pub mod Write
pub mod Sockets
use cpplib.Prelude.{
  ℕ, ◌-◌, ◌^◌, ℤ, pos, negsuc, ◌+ℤ◌, ◌-ℤ◌, ltb_ℤ, eq_ℤ, Bool, Option, none, some, List, [], ◌∷◌,
  ltb, if◌then◌else◌, sub_ℕ,
}

-- `int leastLen = dataLen`
abbrev pub to_int : ℕ → ℤ
to_int n = if ltb n (2 ^ 31) then pos n else sub_ℕ n (2 ^ 32)

-- The calls of `send` with their offset and length, and the result; `none` waits in the last call.
pub write_loop : List ℤ → ℤ → ℤ → List (ℤ × ℤ) × Option ℤ
write_loop [] least_len send_len =
    if eq_ℤ least_len (pos 0) then ([], some send_len) else ((send_len, least_len) ∷ [], none)
write_loop (rs ∷ more) least_len send_len =
    let next = send_len +ℤ rs in
    let (calls, result) = write_loop more (least_len -ℤ next) next in
    if eq_ℤ least_len (pos 0)
    then ([], some send_len)
    else if ltb_ℤ (pos 0) rs
    then ((send_len, least_len) ∷ calls, result)
    else ((send_len, least_len) ∷ [], some (negsuc 1))

-- `WriteData` on a socket and a buffer that may be NULL.
unfoldable pub write_data : ℤ → Bool → ℕ → List ℤ → List (ℤ × ℤ) × Option ℤ
unfolding write_loop
write_data fd is_null data_len rounds =
    if ltb_ℤ fd (pos 0)
    then ([], some (negsuc 0))
    else if is_null
    then ([], some (negsuc 1))
    else write_loop rounds (to_int data_len) (pos 0)

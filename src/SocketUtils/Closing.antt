-- ===== src/SocketUtils/Closing.antt =====
-- `shutdown` and `close_socket` of src/SocketUtils.cpp.
use cpplib.Prelude.{
  ℕ, zero, suc, ℤ, pos, negsuc, ltb_ℤ, Option, none, some, if◌then◌else◌, ◌≡◌, refl,
}

-- `shutdown` calls itself with its own arguments. The first argument is the depth of calls that the
-- stack has room for; `none` is a call that does not return within it.
unfoldable pub shutdown : ℕ → ℤ → ℤ → Option ℤ
shutdown zero fd flag = none
shutdown (suc depth) fd flag = elim (shutdown depth fd flag) [
  | none ↦ none
  | some ret ↦ some (if ltb_ℤ ret (pos 0) then negsuc 0 else ret)
]

-- `close` is the system call.
abbrev pub close_socket : (ℤ → ℤ) → ℤ → ℤ
close_socket close fd = close fd

-- No depth is enough.
shutdown_never : (depth : ℕ) (fd flag : ℤ) → shutdown depth fd flag ≡ none
unfolding shutdown
shutdown_never zero fd flag = refl
shutdown_never (suc depth) fd flag = rw (shutdown_never depth fd flag) refl

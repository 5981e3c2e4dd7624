-- ===== src/SimpleTcpBase/Write.antt =====
-- Whole and split sends of `WriteData` in src/SimpleTcpBase.cpp.
use cpplib.Prelude.{
  ◌∙◌, ℕ, ◌+◌, ◌-◌, ◌<◌, ◌^◌, ℤ, pos, negsuc, ◌+ℤ◌, ◌-ℤ◌, ltb_ℤ, eq_ℤ, false, some, List, [], ◌∷◌,
  ◌≡◌, refl, arith,
}
use cpplib.SimpleTcpBase.{write_loop, write_data}

-- What the loop does when nothing is left.
loop_done : (rounds : List ℤ) (n : ℤ) → write_loop rounds (pos 0) n ≡ ([], some n)
unfolding write_loop
loop_done [] n = refl
loop_done (rs ∷ more) n = refl

loop_sends :
    (rs : ℕ) (more : List ℤ) (least n next left : ℤ)
    → 0 < rs
    → eq_ℤ least (pos 0) ≡ false
    → n +ℤ pos rs ≡ next
    → least -ℤ next ≡ left
    → write_loop (pos rs ∷ more) least n
      ≡ ((n, least) ∷ (write_loop more left next).0, (write_loop more left next).1)
unfolding write_loop
loop_sends rs more least n next left h e p q = ground (arith, h, e, p, q)

open_loop :
    (fd n : ℕ) (rounds : List ℤ)
    → n < 2 ^ 31
    → write_data (pos fd) false n rounds ≡ write_loop rounds (pos n) (pos 0)
unfolding write_data
open_loop fd n rounds fits = ground arith

-- On an open socket, a `send` that takes all bytes ends `WriteData` with their number, and one
-- that fails or takes none ends it with -2, after that one call.
pub write_data_whole :
    (fd n : ℕ) (error : ℤ) (more : List ℤ)
    → 0 < n
    → n < 2 ^ 31
    → ltb_ℤ (pos 0) error ≡ false
    → (write_data (pos fd) false n (pos n ∷ more) ≡ ((pos 0, pos n) ∷ [], some (pos n)))
      × (write_data (pos fd) false n (error ∷ more) ≡ ((pos 0, pos n) ∷ [], some (negsuc 1)))
write_data_whole fd n error more h fits bad = (
  open_loop fd n (pos n ∷ more) fits
      ∙ loop_sends n more (pos n) (pos 0) (pos n) (pos 0) h (ground arith)
          (unfold ◌+ℤ◌ in ground arith) (unfold ◌-ℤ◌ in ground arith)
      ∙ ground (arith, loop_done more (pos n)),
  open_loop fd n (error ∷ more) fits ∙ (unfold write_loop in ground (arith, bad)),
)

-- After two calls that took `a` and `b` bytes `WriteData` believes to be done if `a + a + b` is the
-- length: it returns `a + b`, and the last `a` bytes are not sent.
pub write_data_short :
    (fd n a b : ℕ)
    → 0 < a
    → 0 < b
    → n < 2 ^ 31
    → a + a + b ≡ n
    → write_data (pos fd) false n (pos a ∷ pos b ∷ [])
      ≡ ((pos 0, pos n) ∷ (pos a, pos (n - a)) ∷ [], some (pos (a + b)))
write_data_short fd n a b ha hb fits e =
    open_loop fd n (pos a ∷ pos b ∷ []) fits
    ∙ loop_sends a (pos b ∷ []) (pos n) (pos 0) (pos a) (pos (n - a)) ha (ground arith)
        (unfold ◌+ℤ◌ in ground arith) (unfold ◌-ℤ◌ in ground arith)
    ∙ ground (
      arith,
      loop_sends b [] (pos (n - a)) (pos a) (pos (a + b)) (pos 0) hb (ground arith)
          (unfold ◌+ℤ◌ in ground arith) (unfold ◌-ℤ◌ in ground arith),
      loop_done [] (pos (a + b)),
    )

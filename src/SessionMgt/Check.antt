-- ===== src/SessionMgt/Check.antt =====
-- The walk of `SessionMgt::check` in src/SessionMgt/SessionMgt.cpp.
use cpplib.Prelude.{
  ℕ, ◌≡◌, refl, List, [], ◌∷◌, Text, arith, true, false, Option, none, some, ℤ, text_key, int_key,
  text_eq_iff, eq_ℤ, eq_ℤ_iff, Option-cases, Bool-cases, inl, inr, if◌then◌else◌, subst, ◌↔◌, ◌⊎◌,
}
use cpplib.OrderedMap
use cpplib.OrderedMap.{find}
use cpplib.OrderedMap.Laws.{find-erase, erase-found}
use cpplib.OrderedMap.Order.{IsAscending, Above}
use cpplib.TimeStamp.{to_u64, TimeStamp, to_useconds}
use cpplib.SessionMgt.{Session, SessionMgt, check, check_loop, is_idle}
use cpplib.SessionMgt.Invariant.{IsConsistent}

-- A session that was in use within the limit.
abbrev pub staying : ℕ → Option Session → Option Session
staying now none = none
staying now (some s) = if is_idle now s then none else some s

abbrev Indexed : List (ℤ × Session) → List (Text × ℤ) → Type 0
Indexed m fds = (fd : ℤ) (s : Session) → find fd m ≡ some s → find s.id fds ≡ some fd

-- What the walk over `m` makes of the index `fds`.
record Checked (now : ℕ) (m : List (ℤ × Session)) (fds : List (Text × ℤ))
    (kept : List (ℤ × Session)) (index : List (Text × ℤ)) : Type 0 where
  keeps : (j : ℤ) → find j kept ≡ staying now (find j m)
  subset : (id : Text) (j : ℤ) → find id index ≡ some j → find id fds ≡ some j
  others : (id : Text) (j : ℤ) → find id fds ≡ some j → find j m ≡ none → find id index ≡ some j
  gone : (j : ℤ) (s : Session) → find j m ≡ some s → is_idle now s ≡ true → find s.id index ≡ none
  stays :
      (j : ℤ) (s : Session) → find j m ≡ some s → is_idle now s ≡ false → find s.id index ≡ some j
  above : (i : ℤ) → Above i m → Above i kept
  ascending : IsAscending kept

find-Above : (i : ℤ) (m : List (ℤ × Session)) → Above i m → find i m ≡ none
unfolding find
find-Above i [] a = refl
find-Above i ((j, s) ∷ m) a = ground (arith, a, eq_ℤ_iff j i, find-Above i m a.1)

-- An index without an id.
drop_id :
    (id k : Text) (fds : List (Text × ℤ))
    → (find k (OrderedMap.erase id fds) ≡ none) ↔ ((id ≡ k) ⊎ (find k fds ≡ none))
drop_id id k fds = (
  (λ h. ground (arith, h, find-erase id k fds, text_eq_iff id k)),
  (λ h. ground (arith, h, find-erase id k fds, text_eq_iff id k)),
)

nothing_to_check : (now : ℕ) (fds : List (Text × ℤ)) → Checked now [] fds [] fds
unfolding find
nothing_to_check now fds = record {
  keeps = λ j. refl;
  subset = λ id j e. e;
  others = λ id j e f. e;
  gone = λ j s e i. cc;
  stays = λ j s e i. cc;
  above = λ i h. tt;
  ascending = tt;
}

module _ (now : ℕ) (fd : ℤ) (s : Session) (m : List (ℤ × Session)) (fds : List (Text × ℤ))
    (a : Above fd m) (h : Indexed ((fd, s) ∷ m) fds) where
  head_found : find s.id fds ≡ some fd
  unfolding find
  head_found = h fd s (ground (arith, eq_ℤ_iff fd fd))

  tail_found : (j : ℤ) (r : Session) → find j m ≡ some r → find j ((fd, s) ∷ m) ≡ some r
  unfolding find
  tail_found j r e = ground (arith, e, eq_ℤ_iff fd j, find-Above fd m a)

  tail-Indexed : Indexed m fds
  tail-Indexed j r e = h j r (tail_found j r e)

  tail_erased : Indexed m (OrderedMap.erase s.id fds)
  tail_erased j r e = ground (
    arith,
    e,
    tail-Indexed j r e,
    head_found,
    find-erase s.id r.id fds,
    text_eq_iff s.id r.id,
    find-Above fd m a,
  )

  head_is :
      (j : ℤ) (r : Session) → find j ((fd, s) ∷ m) ≡ some r → eq_ℤ fd j ≡ true → (fd ≡ j) × (s ≡ r)
  unfolding find
  head_is j r e same = ground (arith, e, same, eq_ℤ_iff fd j)

  nothing_left :
      (index : List (Text × ℤ))
      → ((id : Text) (j : ℤ)
          → find id index ≡ some j
          → find id (OrderedMap.erase s.id fds) ≡ some j)
      → find s.id index ≡ none
  nothing_left index subset = elim (Option-cases (find s.id index)) [
    | inl gone ↦ gone
    | inr (x, there) ↦
        absurd
          (ground (arith, subset s.id x there, find-erase s.id s.id fds, text_eq_iff s.id s.id))
  ]

  idle_head :
      (kept : List (ℤ × Session)) (index : List (Text × ℤ))
      → is_idle now s ≡ true
      → Checked now m (OrderedMap.erase s.id fds) kept index
      → Checked now ((fd, s) ∷ m) fds kept index
  unfolding find
  idle_head kept index idle rest = record {
    keeps = λ j. ground (arith, rest.keeps j, idle, eq_ℤ_iff fd j, find-Above fd m a);
    subset = λ id j e. (erase-found s.id id j fds (rest.subset id j e)).1;
    others = λ id j e f. ground (
      arith,
      e,
      f,
      head_found,
      eq_ℤ_iff fd j,
      text_eq_iff s.id id,
      find-erase s.id id fds,
      rest.others id j,
    );
    gone = λ j r e i. elim (Bool-cases (eq_ℤ fd j)) [
      | inl same ↦
          subst (λ (u : Session). find u.id index ≡ none) (head_is j r e same).1
            (nothing_left index rest.subset)
      | inr ne ↦ rest.gone j r (ground (arith, e, ne)) i
    ];
    stays = λ j r e live. rest.stays j r (ground (arith, e, idle, live, eq_ℤ_iff fd j)) live;
    above = λ i h. rest.above i h.1;
    ascending = rest.ascending;
  }

  live_head :
      (kept : List (ℤ × Session)) (index : List (Text × ℤ))
      → is_idle now s ≡ false
      → Checked now m fds kept index
      → Checked now ((fd, s) ∷ m) fds ((fd, s) ∷ kept) index
  unfolding find
  live_head kept index live rest = record {
    keeps = λ j. ground (arith, rest.keeps j, live, eq_ℤ_iff fd j);
    subset = rest.subset;
    others = λ id j e f. rest.others id j e (ground (arith, f));
    gone = λ j r e i. rest.gone j r (ground (arith, e, i, live)) i;
    stays = λ j r e l. elim (Bool-cases (eq_ℤ fd j)) [
      | inl same ↦
          let (to, session) = head_is j r e same in
          subst (λ (u : Session). find u.id index ≡ some j) session
            (rw (← to) (rest.others s.id fd head_found (find-Above fd m a)))
      | inr ne ↦ rest.stays j r (ground (arith, e, ne)) l
    ];
    above = λ i h. (h.0, rest.above i h.1);
    ascending = (rest.above fd a, rest.ascending);
  }

check_loop-Checked :
    (now : ℕ) (m : List (ℤ × Session)) (fds : List (Text × ℤ))
    → IsAscending m
    → Indexed m fds
    → Checked now m fds (check_loop now m fds).0 (check_loop now m fds).1
unfolding check_loop
check_loop-Checked now [] fds a h = nothing_to_check now fds
check_loop-Checked now ((fd, s) ∷ m) fds a h = elim (Bool-cases (is_idle now s)) [
  | inl idle ↦ rw idle (
      idle_head now fd s m fds a.0 h _ _ idle (
        check_loop-Checked now m (OrderedMap.erase s.id fds) a.1
          (tail_erased now fd s m fds a.0 h)))
  | inr live ↦ rw live (
      live_head now fd s m fds a.0 h _ _ live
        (check_loop-Checked now m fds a.1 (tail-Indexed now fd s m fds a.0 h)))
]

module _ (curts : TimeStamp) (mgt : SessionMgt) (v : IsConsistent mgt) where
  abbrev now : ℕ
  now = to_u64 (to_useconds curts)

  walked :
      Checked now mgt.sessions mgt.fds
        (check_loop now mgt.sessions mgt.fds).0
        (check_loop now mgt.sessions mgt.fds).1
  walked = check_loop-Checked now mgt.sessions mgt.fds v.ascending v.indexed

  kept_found :
      (fd : ℤ) (s : Session)
      → find fd (check_loop now mgt.sessions mgt.fds).0 ≡ some s
      → (find fd mgt.sessions ≡ some s) × (is_idle now s ≡ false)
  kept_found fd s e = ground (arith, e, walked.keeps fd)

  pub check-IsConsistent : IsConsistent (check curts mgt)
  unfolding check
  check-IsConsistent = record {
    own_fd = λ fd s e. v.own_fd fd s (kept_found fd s e).0;
    indexed = λ fd s e. walked.stays fd s (kept_found fd s e).0 (kept_found fd s e).1;
    numbered = λ id fd e. v.numbered id fd (walked.subset id fd e);
    ascending = walked.ascending;
  }

  -- Of maps that agree `check` takes out exactly the sessions whose last access, by the unsigned
  -- difference, is more than the limit ago, each with its id; it keeps all others as they are,
  -- each with its id.
  pub check_exact :
      (fd j : ℤ) (s : Session)
      → find fd mgt.sessions ≡ some s
      → (find j (check curts mgt).sessions ≡ staying now (find j mgt.sessions))
        × (find s.id (check curts mgt).fds ≡ (if is_idle now s then none else some fd))
  unfolding check
  check_exact fd j s e = elim (Bool-cases (is_idle now s)) [
    | inl idle ↦ rw idle (walked.keeps j, walked.gone fd s e idle)
    | inr live ↦ rw live (walked.keeps j, walked.stays fd s e live)
  ]

-- ===== src/ConnMgtLb/Refresh.antt =====
-- The connections after `ConnMgtLB::refresh` of src/ConnMgt/ConnMgtLB.h.
use cpplib.Prelude.{
  true, List, [], ◌∷◌, ◌++◌, append_assoc, append-nil, ◌≡◌, inl, inr, refl, sym, arith,
  if◌then◌else◌, Bool-cases, All, All-append, text_eq_iff, ◌∙◌,
}
use cpplib.ConnMgtLb.{
  ConnClass, ConnMgtLb, StSvr, same_svr, wanted, served, release, add_new, refresh,
}

same_svr_refl : (s : StSvr) → same_svr s s ≡ true
unfolding same_svr
same_svr_refl s = ground (arith, text_eq_iff s.ip s.ip)

module _ (class : ConnClass) where
  open class use {Conn, make, svr, connect, close}

  -- The connection leads to one of the servers.
  abbrev pub IsWanted : List StSvr → Conn → Type 0
  IsWanted svrs c = wanted class svrs c ≡ true

  abbrev pub IsServed : List Conn → StSvr → Type 0
  IsServed conns s = served class s conns ≡ true

  fresh_svr : (s : StSvr) → svr (connect (make s)) ≡ s
  fresh_svr s = class.svr-connect (make s) ∙ class.svr-make s

  release-IsWanted :
      (svrs : List StSvr) (conns : List Conn) → All (IsWanted svrs) (release class svrs conns).0
  unfolding release
  release-IsWanted svrs [] = tt
  release-IsWanted svrs (c ∷ conns) = elim (Bool-cases (wanted class svrs c)) [
    | inl keep ↦ rw keep (keep, release-IsWanted svrs conns)
    | inr drop ↦ rw drop (release-IsWanted svrs conns)
  ]

  All-map {ℓ} :
      {A : Type ℓ} (P Q : A → Type 0) (xs : List A) → ((x : A) → P x → Q x) → All P xs → All Q xs
  All-map P Q [] f h = tt
  All-map P Q (x ∷ xs) f h = (f x h.0, All-map P Q xs f h.1)

  -- A new connection to any of the servers is wanted.
  new-IsWanted : (svrs : List StSvr) → All (λ s. IsWanted svrs (connect (make s))) svrs
  unfolding wanted
  new-IsWanted [] = tt
  new-IsWanted (s ∷ svrs) = (
    ground (arith, fresh_svr s, same_svr_refl s),
    All-map _ _ svrs (λ r h. ground (arith, h)) (new-IsWanted svrs),
  )

  add_new-All :
      (P : Conn → Type 0) (svrs : List StSvr) (conns : List Conn)
      → All (λ s. P (connect (make s))) svrs
      → All P conns
      → All P (add_new class svrs conns)
  unfolding add_new
  add_new-All P [] conns h k = k
  add_new-All P (s ∷ svrs) conns h k = elim (Bool-cases (served class s conns)) [
    | inl there ↦ rw there (add_new-All P svrs conns h.1 k)
    | inr absent ↦
        rw absent
          (add_new-All P svrs _ h.1 (All-append P conns (connect (make s) ∷ []) k (h.0, tt)))
  ]

  served-append :
      (s : StSvr) (conns more : List Conn)
      → served class s conns ≡ true
      → served class s (conns ++ more) ≡ true
  unfolding served
  served-append s [] more h = cc
  served-append s (c ∷ conns) more h = ground (arith, h, served-append s conns more)

  served_last :
      (s : StSvr) (conns : List Conn) → served class s (conns ++ connect (make s) ∷ []) ≡ true
  unfolding served
  served_last s [] = ground (arith, fresh_svr s, same_svr_refl s)
  served_last s (c ∷ conns) = ground (arith, served_last s conns)

  -- New connections stand behind the old ones.
  add_new-append :
      (svrs : List StSvr) (conns : List Conn)
      → (more : List Conn) × (add_new class svrs conns ≡ conns ++ more)
  unfolding add_new
  add_new-append [] conns = ([], sym (append-nil conns))
  add_new-append (s ∷ svrs) conns = elim (Bool-cases (served class s conns)) [
    | inl there ↦ rw there (add_new-append svrs conns)
    | inr absent ↦
        let (more, e) = add_new-append svrs (conns ++ connect (make s) ∷ []) in
        rw absent (connect (make s) ∷ more, e ∙ append_assoc conns (connect (make s) ∷ []) more)
  ]

  add_new-served :
      (svrs : List StSvr) (conns : List Conn) (s : StSvr)
      → served class s conns ≡ true
      → served class s (add_new class svrs conns) ≡ true
  add_new-served svrs conns s h =
      let (more, e) = add_new-append svrs conns in rw e (served-append s conns more h)

  served_either :
      (s : StSvr) (conns : List Conn)
      → served class s (if served class s conns then conns else conns ++ connect (make s) ∷ [])
        ≡ true
  served_either s conns = elim (Bool-cases (served class s conns)) [
    | inl there ↦ rw there there
    | inr absent ↦ rw absent (served_last s conns)
  ]

  add_new-IsServed :
      (svrs : List StSvr) (conns : List Conn) → All (IsServed (add_new class svrs conns)) svrs
  unfolding add_new
  add_new-IsServed [] conns = tt
  add_new-IsServed (s ∷ svrs) conns =
      let conns' = if served class s conns then conns else conns ++ connect (make s) ∷ [] in
      (add_new-served svrs conns' s (served_either s conns), add_new-IsServed svrs conns')

  -- After `refresh` the pool and the list of servers agree: every connection leads to a server of
  -- the list, and every server of the list has a connection. The connections that stay come first
  -- and in their old order, and the index stays.
  pub refresh_agrees :
      (svrs : List StSvr) (mgt : ConnMgtLb class)
      → let after = refresh class svrs mgt in
        All (IsWanted svrs) after.conns
        × All (IsServed after.conns) svrs
        × ((more : List Conn) × (after.conns ≡ (release class svrs mgt.conns).0 ++ more))
        × (after.index ≡ mgt.index)
  unfolding refresh
  refresh_agrees svrs mgt =
      let kept = (release class svrs mgt.conns).0 in
      (
        add_new-All (IsWanted svrs) svrs kept (new-IsWanted svrs) (release-IsWanted svrs mgt.conns),
        add_new-IsServed svrs kept,
        add_new-append svrs kept,
        refl,
      )

  release-All :
      (P Q : Conn → Type 0) (svrs : List StSvr) (conns : List Conn)
      → ((c : Conn) → P c → Q (close c))
      → All P conns
      → All P (release class svrs conns).0 × All Q (release class svrs conns).1
  unfolding release
  release-All P Q svrs [] f h = (tt, tt)
  release-All P Q svrs (c ∷ conns) f h = elim (Bool-cases (wanted class svrs c)) [
    | inl keep ↦
        let rest = release-All P Q svrs conns f h.1 in rw (keep, release) ((h.0, rest.0), rest.1)
    | inr drop ↦
        let rest = release-All P Q svrs conns f h.1 in
        rw (drop, release) (rest.0, (f c h.0, rest.1))
  ]

  new-All :
      (P : Conn → Type 0) (svrs : List StSvr)
      → ((s : StSvr) → P (connect (make s)))
      → All (λ s. P (connect (make s))) svrs
  new-All P [] h = tt
  new-All P (s ∷ svrs) h = (h s, new-All P svrs h)

  -- What holds of new connections, and of those in the pool, holds of the pool after `refresh`.
  pub refresh-All :
      (P Q : Conn → Type 0) (svrs : List StSvr) (mgt : ConnMgtLb class)
      → ((s : StSvr) → P (connect (make s)))
      → ((c : Conn) → P c → Q (close c))
      → All P mgt.conns
      → All P (refresh class svrs mgt).conns × All Q (release class svrs mgt.conns).1
  unfolding refresh
  refresh-All P Q svrs mgt fresh shut h =
      let r = release-All P Q svrs mgt.conns shut h in
      (add_new-All P svrs (release class svrs mgt.conns).0 (new-All P svrs fresh) r.0, r.1)

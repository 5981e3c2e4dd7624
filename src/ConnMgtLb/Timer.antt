-- ===== src/ConnMgtLb/Timer.antt =====
-- The start of the pool in src/ConnMgt/ConnMgtLB.h with its timer, and what the timer and the user
-- make of the pool behind it. `get_conn`, which moves the index alone, is not among these calls.
use cpplib.Prelude.{
  ℕ, ℤ, pos, eq_ℤ, eq_ℤ_iff, not, some, List, [], ◌∷◌, map, if◌then◌else◌, ◌≡◌, refl, ◌∙◌, sym, inl,
  inr, Bool-cases, All,
}
use cpplib.SelectTimer.{register_timer_handler, get_interval}
use cpplib.SelectTimer.Start
use cpplib.SelectTimer.Start.{TimerThread, Launch, constructed}
use cpplib.Thread
use cpplib.Thread.{Creation, created, refused}
use cpplib.ConnMgtLb.{ConnClass, ConnMgtLb, StSvr, wanted, served, refresh, check_conn}
use cpplib.ConnMgtLb.Refresh.{IsWanted, IsServed, refresh_agrees}

-- What a start returns: the code of the first call that fails.
abbrev pub code_of : Launch → ℤ
code_of l =
    if eq_ℤ l.attr (pos 0)
    then elim l.creation [ created thread code ↦ code | refused code ↦ code ]
    else l.attr

module _ (class : ConnClass) where
  open class use {Conn, svr, connect}

  -- `init`, on a new timer; the handler is number 0.
  unfoldable pub init :
      List StSvr → Launch → TimerThread → ConnMgtLb class → ℤ × TimerThread × ConnMgtLb class
  unfolding register_timer_handler Start.init Start.run
  init svrs l t mgt =
      let filled = refresh class svrs (record mgt { index = 0 }) in
      let (ret, timer) = register_timer_handler (some 0) 5_000_000 t.timer in
      let registered = record t { timer = timer } in
      let ready = Start.init l registered in
      let running = Start.run l ready.1 in
      if not (eq_ℤ ret (pos 0))
      then (ret, registered, filled)
      else if not (eq_ℤ ready.0 (pos 0))
      then (ready.0, ready.1, filled)
      else if not (eq_ℤ running.0 (pos 0))
      then (running.0, running.1, filled)
      else (pos 0, running.1, filled)

  -- A call of `refresh`, or of `conn_timer_cb` by the timer.
  pub data Call : Type 0 where
    refreshes : List StSvr → Call
    ticks : Call

  unfoldable pub run : List Call → ConnMgtLb class → ConnMgtLb class
  run [] mgt = mgt
  run (refreshes svrs ∷ calls) mgt = run calls (refresh class svrs mgt)
  run (ticks ∷ calls) mgt = run calls (check_conn class mgt)

  -- The list of servers that was given last.
  abbrev pub last_svrs : List StSvr → List Call → List StSvr
  last_svrs svrs [] = svrs
  last_svrs svrs (refreshes svrs' ∷ calls) = last_svrs svrs' calls
  last_svrs svrs (ticks ∷ calls) = last_svrs svrs calls

  -- The pool leads to these servers and no other.
  pub record Agrees (svrs : List StSvr) (mgt : ConnMgtLb class) : Type 0 where
    pub leads : All (IsWanted class svrs) mgt.conns
    pub covers : All (IsServed class mgt.conns) svrs

  wanted-connect :
      (svrs : List StSvr) (c : Conn) → wanted class svrs (connect c) ≡ wanted class svrs c
  unfolding wanted
  wanted-connect [] c = refl
  wanted-connect (s ∷ svrs) c = rw (class.svr-connect c, wanted-connect svrs c) refl

  served-map :
      (s : StSvr) (conns : List Conn) → served class s (map connect conns) ≡ served class s conns
  unfolding served
  served-map s [] = refl
  served-map s (c ∷ conns) = rw (class.svr-connect c, served-map s conns) refl

  map-IsWanted :
      (svrs : List StSvr) (conns : List Conn)
      → All (IsWanted class svrs) conns
      → All (IsWanted class svrs) (map connect conns)
  map-IsWanted svrs [] h = tt
  map-IsWanted svrs (c ∷ conns) h = (wanted-connect svrs c ∙ h.0, map-IsWanted svrs conns h.1)

  map-IsServed :
      (svrs : List StSvr) (conns : List Conn)
      → All (IsServed class conns) svrs
      → All (IsServed class (map connect conns)) svrs
  map-IsServed [] conns h = tt
  map-IsServed (s ∷ svrs) conns h = (served-map s conns ∙ h.0, map-IsServed svrs conns h.1)

  refresh-Agrees :
      (svrs : List StSvr) (mgt : ConnMgtLb class) → Agrees svrs (refresh class svrs mgt)
  refresh-Agrees svrs mgt =
      let (leads, covers, kept, index) = refresh_agrees class svrs mgt in
      record { leads = leads; covers = covers }

  run-Agrees :
      (svrs : List StSvr) (calls : List Call) (mgt : ConnMgtLb class)
      → Agrees svrs mgt
      → Agrees (last_svrs svrs calls) (run calls mgt)
  unfolding run check_conn
  run-Agrees svrs [] mgt a = a
  run-Agrees svrs (refreshes svrs' ∷ calls) mgt a =
      run-Agrees svrs' calls (refresh class svrs' mgt) (refresh-Agrees svrs' mgt)
  run-Agrees svrs (ticks ∷ calls) mgt a = run-Agrees svrs calls (check_conn class mgt) (record {
    leads = map-IsWanted svrs mgt.conns a.leads;
    covers = map-IsServed svrs mgt.conns a.covers;
  })

  init_parts :
      (svrs : List StSvr) (sec usec : ℕ) (attr : ℤ) (creation : Creation) (mgt : ConnMgtLb class)
      → let l : Launch = record { attr = attr; creation = creation } in
        let (code, t, filled) = init svrs l (constructed sec usec) mgt in
        (code ≡ code_of l)
        × (get_interval t.timer ≡ 5_000_000)
        × (filled ≡ refresh class svrs (record mgt { index = 0 }))
  unfolding init constructed Start.init Start.run Thread.init Thread.run Thread.make
      register_timer_handler get_interval
  init_parts svrs sec usec attr (created thread code) mgt = elim (Bool-cases (eq_ℤ attr (pos 0))) [
    | inl fine ↦ elim (Bool-cases (eq_ℤ code (pos 0))) [
      | inl kept ↦ rw (fine, kept) (sym ((eq_ℤ_iff code (pos 0)).0 kept), refl, refl)
      | inr lost ↦ rw (fine, lost) (refl, refl, refl)
    ]
    | inr bad ↦ rw (bad, bad) (refl, refl, refl)
  ]
  init_parts svrs sec usec attr (refused code) mgt = elim (Bool-cases (eq_ℤ attr (pos 0))) [
    | inl fine ↦ elim (Bool-cases (eq_ℤ code (pos 0))) [
      | inl kept ↦ rw (fine, kept) (sym ((eq_ℤ_iff code (pos 0)).0 kept), refl, refl)
      | inr lost ↦ rw (fine, lost) (refl, refl, refl)
    ]
    | inr bad ↦ rw (bad, bad) (refl, refl, refl)
  ]

  -- `init` returns the code of the first call of pthread that fails, or 0, and whatever it returns
  -- has filled the pool; the interval of its timer is five seconds. Behind it, over any calls of
  -- `refresh` and of the timer in any order, every connection of the pool leads to a server of the
  -- list that was given last, and every server of that list has a connection.
  pub init-Agrees :
      (svrs : List StSvr) (l : Launch) (sec usec : ℕ) (mgt : ConnMgtLb class) (calls : List Call)
      → let (code, t, filled) = init svrs l (constructed sec usec) mgt in
        (code ≡ code_of l)
        × (get_interval t.timer ≡ 5_000_000)
        × Agrees (last_svrs svrs calls) (run calls filled)
  init-Agrees svrs l sec usec mgt calls =
      let (code, interval, same) = init_parts svrs sec usec l.attr l.creation mgt in
      let start = record mgt { index = 0 } in
      (
        code,
        interval,
        rw same (run-Agrees svrs calls (refresh class svrs start) (refresh-Agrees svrs start)),
      )

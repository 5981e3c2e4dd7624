-- ===== src/ConnMgtLb.antt =====
-- src/ConnMgt/Conn.h, src/ConnMgt/ConnMgtLB.h and src/ConnMgt/ConnMgtLB.cpp: a pool of client
-- connections with turns. A connection is any class under `Conn`: its virtual methods are an
-- interface here. Each method of the pool runs under its mutex.
pub mod Turns
pub mod Refresh
pub mod Timer
use cpplib.Prelude.{
  Bool, true, false, not, ◌&&◌, ◌||◌, Option, none, some, List, [], ◌∷◌, ◌++◌, ℕ, zero, suc, ◌+◌, ℤ,
  leb, ◌==◌, Text, text_eq, if◌then◌else◌, length, get_elem?, u32, map, ◌≡◌,
}

pub record StSvr : Type 0 where
  pub ip : Text
  pub ip_out : Text
  pub port : ℕ
  pub domain : Text

-- The class behind `ConnPtr`: its constructor and methods on the object's state. No method changes
-- `_svr`, which the constructor sets.
pub record ConnClass : Type 1 where
  pub Conn : Type 0
  pub make : StSvr → Conn
  pub svr : Conn → StSvr
  pub connect : Conn → Conn
  pub close : Conn → Conn
  pub is_close : Conn → Bool
  pub svr-make : (s : StSvr) → svr (make s) ≡ s
  pub svr-connect : (c : Conn) → svr (connect c) ≡ svr c

-- The endpoints are equal: `_ip` and `_port`.
unfoldable pub same_svr : StSvr → StSvr → Bool
same_svr a b = text_eq a.ip b.ip && (a.port == b.port)

module _ (class : ConnClass) where
  open class use {Conn, make, svr, connect, close, is_close}

  pub record ConnMgtLb : Type 0 where
    pub conns : List Conn
    pub index : ℕ

  -- The inner loop of the first part of `refresh`.
  unfoldable pub wanted : List StSvr → Conn → Bool
  wanted [] c = false
  wanted (s ∷ svrs) c = same_svr s (svr c) || wanted svrs c

  -- The inner loop of the second part.
  unfoldable pub served : StSvr → List Conn → Bool
  served s [] = false
  served s (c ∷ conns) = same_svr s (svr c) || served s conns

  -- The connections that stay, and those that were closed and erased.
  unfoldable pub release : List StSvr → List Conn → List Conn × List Conn
  unfolding wanted
  release svrs [] = ([], [])
  release svrs (c ∷ conns) =
      let (kept, closed) = release svrs conns in
      if wanted svrs c then (c ∷ kept, closed) else (kept, close c ∷ closed)

  unfoldable pub add_new : List StSvr → List Conn → List Conn
  unfolding served
  add_new [] conns = conns
  add_new (s ∷ svrs) conns =
      add_new svrs (if served s conns then conns else conns ++ connect (make s) ∷ [])

  unfoldable pub refresh : List StSvr → ConnMgtLb → ConnMgtLb
  unfolding release add_new
  refresh svrs mgt = record mgt { conns = add_new svrs (release svrs mgt.conns).0 }

  -- `check_conn`, which the timer calls: every connection tries to connect.
  unfoldable pub check_conn : ConnMgtLb → ConnMgtLb
  check_conn mgt = record mgt { conns = map connect mgt.conns }

  -- The loop of `get_conn`: the result with the local `conn` and the new `_index`; `none` where
  -- the fuel runs out, or on a read behind the end.
  unfoldable pub get_loop : ℕ → List Conn → ℕ → ℕ → Option (Option Conn × ℕ)
  get_loop zero conns tag index = none
  get_loop (suc fuel) conns tag index = elim (get_elem? conns index) [
    | none ↦ none
    | some conn ↦
        let next = if leb (length conns) (u32 (index + 1)) then 0 else u32 (index + 1) in
        let rest = get_loop fuel conns tag next in
        if not (is_close conn)
        then some (some conn, u32 (index + 1))
        else if next == tag
        then some (none, next)
        else rest
  ]

  -- `get_conn`: true with the connection found, or false. Its parameter `conn` is a copy, so the
  -- caller sees the result alone. One round for each connection is enough.
  unfoldable pub get_conn : ConnMgtLb → Option (Option Conn × ConnMgtLb)
  unfolding get_loop
  get_conn mgt = elim mgt.conns [
    | [] ↦ some (none, mgt)
    | _ ∷ _ ↦
        let start = if leb (length mgt.conns) mgt.index then 0 else mgt.index in
        elim (get_loop (length mgt.conns) mgt.conns start start) [
          | none ↦ none
          | some (conn, index) ↦ some (conn, record mgt { index = index })
        ]
  ]

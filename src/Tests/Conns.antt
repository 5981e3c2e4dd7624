-- ===== src/Tests/Conns.antt =====
-- ConnMgtLB with connections that are a server and a flag.
use cpplib.Prelude.{
  pos, text_eq, Bool, true, false, Option, some, List, [], ◌∷◌, ℕ, ◌≡◌, refl, arith, codes, ◌==◌,
}
use cpplib.ConnMgtLb.{StSvr, ConnClass, ConnMgtLb, same_svr, refresh, get_conn}
use cpplib.ConnMgtLb.Turns.{start_of, with_index, Found, get_conn_turns}
use cpplib.ConnMgtLb.Timer.{Call, refreshes, ticks, init, run, Agrees, init-Agrees}
use cpplib.SelectTimer.{get_interval}
use cpplib.SelectTimer.Start.{Launch, constructed}
use cpplib.Thread.{refused}

abbrev server : ℕ → StSvr
server port = record { ip = codes "10.0.0.1"; ip_out = []; port = port; domain = [] }

-- The server on port 1 does not answer.
abbrev flagged : ConnClass
flagged = record {
  Conn = StSvr × Bool;
  make = λ s. (s, true);
  svr = λ c. c.0;
  connect = λ c. (c.0, c.0.port == 1);
  close = λ c. (c.0, true);
  is_close = λ c. c.1;
  svr-make = λ s. refl;
  svr-connect = λ c. refl;
}

abbrev pool : ConnMgtLb flagged
pool = record { conns = (server 1, true) ∷ (server 2, false) ∷ (server 3, true) ∷ []; index = 2 }

get_conn_turns_example :
    (r : Option (Option (StSvr × Bool) × ℕ)) × (get_conn flagged pool ≡ with_index flagged pool r)
    × Found flagged pool.conns (start_of flagged pool) 0 r
get_conn_turns_example = get_conn_turns flagged pool (omega arith) (omega arith)

get_conn_runs : get_conn flagged pool ≡ some (some (server 2, false), record pool { index = 2 })
unfolding get_conn
get_conn_runs = refl

abbrev servers : List StSvr
servers = server 2 ∷ server 4 ∷ []

-- A thread that cannot be created; the timer goes off before and behind a new list.
abbrev no_thread : Launch
no_thread = record { attr = pos 0; creation = refused (pos 11) }

abbrev calls : List (Call flagged)
calls = ticks ∷ refreshes servers ∷ ticks ∷ []

init-Agrees_example :
    let (code, t, filled) =
      init flagged (server 1 ∷ server 2 ∷ []) no_thread (constructed 0 0) pool in
    (code ≡ pos 11)
    × (get_interval t.timer ≡ 5_000_000)
    × Agrees flagged servers (run flagged calls filled)
init-Agrees_example = init-Agrees flagged (server 1 ∷ server 2 ∷ []) no_thread 0 0 pool calls

refresh_runs : (refresh flagged servers pool).conns ≡ (server 2, false) ∷ (server 4, false) ∷ []
unfolding refresh same_svr text_eq
refresh_runs = refl

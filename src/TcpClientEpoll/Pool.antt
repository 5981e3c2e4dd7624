-- ===== src/TcpClientEpoll/Pool.antt =====
-- The clients of src/ConnMgt/TcpClientEpoll.cpp in the pool of src/ConnMgt/ConnMgtLB.h.
use cpplib.Prelude.{Bool, List, [], All, ◌≡◌, refl}
use cpplib.ConnMgtLb.{StSvr, ConnClass, ConnMgtLb, release, refresh}
use cpplib.ConnMgtLb.Refresh.{refresh-All}
use cpplib.TcpClientEpoll.{TcpClientEpoll, Attempt, init, connect, close, is_close}
use cpplib.TcpClientEpoll.Descriptors.{
  IsTight, IsClean, connect-IsTight, init-IsTight, close_holds_none,
}

-- The class under `Conn`, where each server answers in its own way.
abbrev pub tcp_class : Bool → (StSvr → Attempt) → ConnClass
tcp_class asyn answer = record {
  Conn = StSvr × TcpClientEpoll;
  make = λ s. (s, init asyn);
  svr = λ c. c.0;
  connect = λ c. (c.0, (connect (answer c.0) c.1).1);
  close = λ c. (c.0, close c.1);
  is_close = λ c. is_close c.1;
  svr-make = λ s. refl;
  svr-connect = λ c. refl;
}

-- `refresh` over such clients keeps their descriptors in order, if no `connect` fails between
-- `epoll_create` and `pthread_create`: every client of the pool holds just what its state needs,
-- and every client taken out of it holds no descriptor.
pub refresh_holds :
    (asyn : Bool) (answer : StSvr → Attempt) (svrs : List StSvr)
    (mgt : ConnMgtLb (tcp_class asyn answer))
    → ((s : StSvr) → IsClean (answer s))
    → All (λ c. IsTight c.1) mgt.conns
    → All (λ c. IsTight c.1) (refresh (tcp_class asyn answer) svrs mgt).conns
      × All (λ c. c.1.descriptors ≡ []) (release (tcp_class asyn answer) svrs mgt.conns).1
refresh_holds asyn answer svrs mgt clean h =
    refresh-All (tcp_class asyn answer) (λ c. IsTight c.1) (λ c. c.1.descriptors ≡ []) svrs mgt
      (λ s. connect-IsTight (answer s) (init asyn) (clean s) (init-IsTight asyn))
      (λ c t. close_holds_none c.1 t) h

-- ===== src/Lib.antt =====
-- A C++ library for servers on Linux: queues and maps that threads share, a rate limit, texts in
-- Base64, digests and ciphers, queries on XML, reactors for TCP and UDP, the sessions of a TCP server
-- and a pool of client connections. The components are used
-- together by a server: a reactor calls the session manager from its handlers, a timer calls
-- `SessionMgt::check` and `ConnMgtLB::check_conn`, and the handlers pass their work on through the
-- queues. The queues, the maps, the sessions and the pool hold their mutex in each method, so that a
-- method is a function on the state, and a run of several threads is a sequence of such turns; the
-- modules named Shared take the methods apart into their accesses, which threads interleave.
--
-- The files, and the code that each is about:
--   Prelude: the names that all files share; lists, integers and texts over the native numbers, 32
--     and 64 bit words with their wrap-around, what an ordered map asks of its keys, and families of threads.
--   OrderedMap: `std::map` as a list of entries in ascending order of their keys, with `find`,
--     `insert`, `operator[]` with an assignment, and `erase`.
--   TimeStamp: src/TimeStamp.h and src/TimeStamp.cpp.
--   Queue: src/TQueue.h. The state is the record `TQueue`; `pop`, `pop_timeout` (`pop` with a
--     timeout) and `push` are one turn under the lock, `throttle` is the block on the rate limit
--     and `pause` what follows behind the lock. Queue/History has runs of turns,
--     Queue/Throttle the rate limit and Queue/Shared the accesses of the methods.
--   TVector: src/TVector.h, and its agreement with the queue.
--   TMapInt, TMapString: src/TMapInt.h and src/TMapString.h. A method of TMapString runs from one
--     wait of the condition variable to the next.
--   Base64: src/Base64.cpp. `none` is a read out of bounds or of a cell that is not set, or a loop
--     without an end.
--   Decimal: `std::to_string` on unsigned numbers, for the ids of sessions.
--   SessionMgt: src/SessionMgt/SessionMgt.cpp, SessionMgt.h and Session.h. The state has the two
--     maps and the counter; SessionMgt/Calls has the sequences of calls, and
--     SessionMgt/Shared the accesses of the methods.
--   ConnMgtLb: src/ConnMgt/ConnMgtLB.h, ConnMgtLB.cpp and Conn.h, over any class of connections.
--   StringUtils: src/StringUtils.h and src/StringUtils.cpp: `trim`, `split` at a character, and
--     `split_tokens` for `split` at a set of characters; StringUtils/Format has `vform`.
--   SocketUtils: src/SocketUtils.cpp. The results of the system calls are arguments, one entry for
--     each round of a loop; `none` is a loop that goes on behind the last entry.
--     SocketUtils/Options has the methods on flags, options and addresses, and SocketUtils/Closing
--     `shutdown` and `close_socket`.
--   SimpleTcpBase: src/SimpleTcpBase.cpp, `WriteData` here and the other methods in
--     SimpleTcpBase/Sockets.
--   TcpReactor: src/TcpReactor.cpp and src/EventHandler.h. The events of a batch carry what the
--     system calls and the handlers return; the calls of handlers are a log. TcpReactor/Setup has
--     `do_init` and `release` with the descriptors that are open.
--   UdpReactor: src/UdpReactor.cpp. `none` is a call of `abort`, or behaviour that is undefined.
--   UdpClient: src/UdpClient.cpp, with the sockets that a client has open.
--   TcpClientEpoll: src/ConnMgt/TcpClientEpoll.cpp, with the open descriptors of a client as a part
--     of its state; it fills the interface of ConnMgtLb.
--   Thread: src/Thread.h and src/Thread.cpp. Thread/Lifecycle has the accesses of the threads and of
--     their caller to the object, which no lock guards.
--   TSingleton: src/TSingleton.h, by steps of threads on the pointer and its lock.
--   ThreadCond: `TimeWait` of src/ThreadCond.cpp.
--   ThreadMutex: src/ThreadMutex.h and the calls of src/ThreadCond.cpp, by steps of threads that
--     access an object under a guard; ThreadMutex/Serial makes turns of them, for any object, and
--     ThreadMutex/Entries says where a turn begins,
--     and ThreadMutex/Waking when a thread waits. TMapString/Shared, Queue/Shared and
--     ThreadMeet/Shared have the accesses of those classes.
--   OsUtils: src/OSUtils.cpp.
--   ThreadRwMutex: src/ThreadRWMutex.cpp, by steps of threads in and out of the scopes of guards.
--   ThreadMeet: src/ThreadMeet.cpp. SelectTimer: src/SelectTimer.cpp and src/SelectTimer.h.
--     SelectTimer/Start joins it with Thread, and SessionMgt/Timer and
--     ConnMgtLb/Timer both with the manager of sessions and the pool.
--   XmlParser: src/XMLParser.cpp, on the elements that the accessors of tinyxml give.
--   Cryptopp: src/Cryptopp.cpp. Cryptopp/Rsa has `X_RSA_OAEP`, and Cryptopp the other classes.
--   Tests: each property at concrete values, and runs of the code.
--
-- Bounds and fuel: `long` values of a time are integers, since the source leaves their overflow
-- undefined; unsigned values wrap around as written. The search in Base64 runs once for each
-- character, `ConnMgtLB::get_conn` once for each connection, and the digits of a number once for
-- each unit of the number, so that no run meets the end of its fuel.
--
-- Each thread that calls `TSingleton::GetInstance` makes six steps at most, and each round of the two
-- loops of RSA takes a block off the text, so that its length and one round more are enough;
-- `vform` needs no more rounds than its text has bytes and two.
--
-- Not modelled: the reads of the clock and of the peer's address, which are arguments; the waits
-- and `usleep`, whose results are arguments and whose length is a result; and
-- logging. What pthread does with a mutex and a condition variable is taken as it documents it. The
-- libraries CryptoPP and tinyxml are arguments, with what
-- they document as hypotheses.
pub mod Prelude
pub mod OrderedMap
pub mod TimeStamp
pub mod Queue
pub mod TSingleton
pub mod TVector
pub mod UdpReactor
pub mod UdpClient
pub mod Base64
pub mod TMapInt
pub mod TMapString
pub mod Cryptopp
pub mod Decimal
pub mod OsUtils
pub mod SessionMgt
pub mod StringUtils
pub mod SocketUtils
pub mod SimpleTcpBase
pub mod Thread
pub mod ThreadCond
pub mod ThreadMutex
pub mod ThreadMeet
pub mod ThreadRwMutex
pub mod SelectTimer
pub mod TcpReactor
pub mod TcpClientEpoll
pub mod ConnMgtLb
pub mod Tests
pub mod XmlParser

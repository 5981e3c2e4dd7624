-- ===== src/Tests/Sockets.antt =====
-- SocketUtils and SimpleTcpBase on concrete results of the system calls.
use cpplib.Prelude.{ℕ, pos, negsuc, false, some, List, [], ◌∷◌, Text, codes, ◌≡◌, refl, arith}
use cpplib.SocketUtils.{Outcome, returned, failed, send_n, recv_n}
use cpplib.SocketUtils.Send.{IsSent, send_n_sends}
use cpplib.SocketUtils.Receive.{stream, IsReceived, recv_n_receives}
use cpplib.SimpleTcpBase.{write_data}
use cpplib.SimpleTcpBase.Write.{write_data_whole}

-- Two bytes, an interrupt, and three bytes.
abbrev sends : List (Outcome ℕ × ℕ)
sends = (returned 2, 1010) ∷ (failed 4, 1020) ∷ (returned 3, 1030) ∷ []

send_n_sends_example : IsSent (codes "hello") (send_n 100 1000 (codes "hello") sends)
send_n_sends_example =
    send_n_sends (codes "hello") (omega arith) 100 1000 sends (omega arith, (omega arith, tt))

send_n_runs : send_n 100 1000 (codes "hello") sends ≡ some (pos 0, 5, codes "hello")
unfolding send_n
send_n_runs = refl

abbrev late_sends : List (Outcome ℕ × ℕ)
late_sends = (returned 2, 1010) ∷ (failed 11, 1100) ∷ []

abbrev chunks : List (Outcome Text × ℕ)
chunks = (failed 11, 1010) ∷ (returned (codes "he"), 1020) ∷ (returned (codes "l"), 1030) ∷ []

recv_n_receives_example : IsReceived 3 (stream chunks) (recv_n 100 1000 3 chunks)
recv_n_receives_example =
    recv_n_receives 3 (omega arith) 100 1000 chunks (omega arith, (omega arith, tt))

recv_n_runs : recv_n 100 1000 3 chunks ≡ some (pos 1, 3, codes "hel")
unfolding recv_n
recv_n_runs = refl

write_data_whole_example :
    (write_data (pos 3) false 10 (pos 10 ∷ []) ≡ ((pos 0, pos 10) ∷ [], some (pos 10)))
    × (write_data (pos 3) false 10 (negsuc 0 ∷ []) ≡ ((pos 0, pos 10) ∷ [], some (negsuc 1)))
write_data_whole_example = write_data_whole 3 10 (negsuc 0) [] (omega arith) (omega arith) refl

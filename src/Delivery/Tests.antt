-- ===== src/Delivery/Tests.antt =====
-- Two packets over a socket that takes two bytes at a time.
use edgevision_rv1126b.Prelude.{ℕ, ◌≡◌, refl, List, [], ◌∷◌, some, arith}
use edgevision_rv1126b.Prelude.Int.{pos}
use edgevision_rv1126b.Socket.{Link}
use edgevision_rv1126b.Socket.Samples.{two_bytes, two_bytes-IsPatient, unused}
use edgevision_rv1126b.Stream.{FramedTcpClient}
use edgevision_rv1126b.Delivery.{send_packets}
use edgevision_rv1126b.Delivery.Reads.{Arrives, send_packets-Arrives}

abbrev connected : FramedTcpClient
connected = record { server_ip = []; server_port = pos 8888; sock = some 3 }

abbrev packets : List (List ℕ)
packets = (7 ∷ 8 ∷ 9 ∷ []) ∷ (1 ∷ []) ∷ []

send_packets-Arrives_example :
    (sent : List (List ℕ)) × (after : Link) × (send_packets two_bytes 9 connected packets unused
      ≡ some (sent, after))
    × Arrives packets sent after.wire
send_packets-Arrives_example =
    send_packets-Arrives two_bytes 0 9 3 connected packets unused two_bytes-IsPatient refl
      (omega arith) refl
      (((omega arith, omega arith), omega arith), (((omega arith, omega arith), omega arith), tt))

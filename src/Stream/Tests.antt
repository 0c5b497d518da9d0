-- ===== src/Stream/Tests.antt =====
-- The client over a socket that takes two bytes at a time.
use edgevision_rv1126b.Prelude.{◌≡◌, refl, Bool, [], ◌∷◌, some, arith}
use edgevision_rv1126b.Prelude.Int.{pos}
use edgevision_rv1126b.Socket.{Link}
use edgevision_rv1126b.Socket.Samples.{two_bytes, two_bytes-IsPatient, unused}
use edgevision_rv1126b.Stream.{FramedTcpClient, send_packet}
use edgevision_rv1126b.Stream.Delivery.{Delivered, send_packet-Delivered}

abbrev connected : FramedTcpClient
connected = record { server_ip = []; server_port = pos 8888; sock = some 3 }

send_packet-Delivered_example :
    (ok : Bool) × (after : Link) × (send_packet two_bytes 9 connected (7 ∷ 8 ∷ 9 ∷ []) unused
      ≡ some (ok, after))
    × Delivered (7 ∷ 8 ∷ 9 ∷ []) unused ok after
send_packet-Delivered_example =
    send_packet-Delivered two_bytes 0 two_bytes-IsPatient 9 3 connected (7 ∷ 8 ∷ 9 ∷ []) unused refl
      (omega arith) (omega arith) (omega arith)

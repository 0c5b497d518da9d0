-- ===== src/Gateway/Sender/Tests.antt =====
-- A turn of the sending thread over a socket that takes two bytes at a time.
use edgevision_rv1126b.Prelude.{◌≡◌, Bool, true, [], ◌∷◌, some, arith}
use edgevision_rv1126b.Socket.{Link}
use edgevision_rv1126b.Socket.Samples.{two_bytes, unused}
use edgevision_rv1126b.Gateway.State.{Viewer}
use edgevision_rv1126b.Gateway.Viewers.Queues.{IsValid}
use edgevision_rv1126b.Gateway.Sender.{send_queued}
use edgevision_rv1126b.Gateway.Sender.Progress.{Turn}
use edgevision_rv1126b.Gateway.Sender.Turns.{send_queued-Turn}

abbrev half_sent : Viewer
half_sent = record {
  fd = 5;
  send_queue = (1 ∷ 2 ∷ []) ∷ (3 ∷ 4 ∷ 5 ∷ []) ∷ [];
  current_offset = 1;
  active = true;
}

half_sent-IsValid : IsValid half_sent
half_sent-IsValid = record { placed = omega arith; filled = omega arith; bounded = omega arith }

send_queued-Turn_example :
    (w : Viewer) × (after : Link) × (dead : Bool) × (send_queued two_bytes 6 half_sent unused
      ≡ some (w, after, dead))
    × Turn two_bytes half_sent unused w after dead
send_queued-Turn_example =
    send_queued-Turn two_bytes 6 half_sent unused half_sent-IsValid (omega arith)

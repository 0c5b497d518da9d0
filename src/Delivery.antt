-- ===== src/Delivery.antt =====
-- The way of the packets from the encode thread of camera/src/main.cpp over one connection to the
-- gateway: the calls of `sendPacket` of its loop, which ends with the first that fails.
pub mod Wires
pub mod Reads
mod Tests
use edgevision_rv1126b.Prelude.{ℕ, Bool, true, false, List, [], ◌∷◌, Option, none, some, ◌>>=◌}
use edgevision_rv1126b.Socket.{Socket, Link}
use edgevision_rv1126b.Stream.{FramedTcpClient, send_packet}

-- After a call of `sendPacket`: the packets for which it answered true, and the last link.
unfoldable pub goes_on :
    List ℕ → Bool → Link → Option (List (List ℕ) × Link) → Option (List (List ℕ) × Link)
goes_on packet false after rest = some ([], after)
goes_on packet true after rest = rest >>= λ (sent, last). some (packet ∷ sent, last)

unfoldable pub send_packets :
    Socket → ℕ → FramedTcpClient → List (List ℕ) → Link → Option (List (List ℕ) × Link)
unfolding send_packet goes_on
send_packets socket fuel client [] link = some ([], link)
send_packets socket fuel client (packet ∷ packets) link =
    send_packet socket fuel client packet link >>= λ (ok, after).
    goes_on packet ok after (send_packets socket fuel client packets after)

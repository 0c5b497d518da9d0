-- ===== src/Delivery/Reads.antt =====
-- The packets that the gateway hands on are those that `sendPacket` answered true for.
use edgevision_rv1126b.Prelude.{
  ℕ, ◌+◌, ◌*◌, ◌<◌, ◌≡◌, refl, sym, ap, ◌∙◌, List, [], ◌∷◌, ◌++◌, Option, none, some, All,
  append-nil, append_assoc,
}
use edgevision_rv1126b.Wire.{framed_all}
use edgevision_rv1126b.Socket.{Socket, Link, IsPatient}
use edgevision_rv1126b.Stream.{FramedTcpClient}
use edgevision_rv1126b.Gateway.Frames.{Received, go, stop, receive}
use edgevision_rv1126b.Gateway.Frames.Reassembly.{
  append_frames, and_then, receive_all, concat, receive_all-framed_all,
}
use edgevision_rv1126b.Delivery.{send_packets}
use edgevision_rv1126b.Delivery.Wires.{IsSendable, send_packets-Streamed}

concat-append : (xs ys : List (List ℕ)) → concat (xs ++ ys) ≡ concat xs ++ concat ys
concat-append [] ys = refl
concat-append (x ∷ xs) ys =
    ap (λ t. x ++ t) (concat-append xs ys) ∙ sym (append_assoc x (concat xs) (concat ys))

receive_all-append :
    (r : Option Received) (chunks : List (List ℕ)) (later : List ℕ)
    → receive_all r (chunks ++ later ∷ []) ≡ and_then (receive_all r chunks) later
receive_all-append r [] later = refl
receive_all-append r (chunk ∷ chunks) later = receive_all-append (and_then r chunk) chunks later

-- The answer at some time, of the packets that are handed on in the end.
abbrev pub IsBeginning : List (List ℕ) → Option Received → Type 0
IsBeginning all o =
    (frames : List (List ℕ)) × (rest : List ℕ) × (o ≡ some (go frames rest))
    × (more : List (List ℕ)) × (all ≡ frames ++ more)

and_then-IsBeginning :
    (o : Option Received) (later : List ℕ) (all : List (List ℕ)) (part : List ℕ)
    → and_then o later ≡ some (go all part)
    → IsBeginning all o
and_then-IsBeginning none later all part e = cc
and_then-IsBeginning (some stop) later all part e = cc
and_then-IsBeginning (some (go frames rest)) later all part e = by_receive (receive rest later) e
  where
    by_receive :
        (o : Option Received)
        → append_frames frames o ≡ some (go all part)
        → IsBeginning all (some (go frames rest))
    by_receive none f = cc
    by_receive (some stop) f = cc
    by_receive (some (go more last)) f =
        let same : all ≡ frames ++ more = cc in (frames, rest, refl, more, same)

-- `sent` are the packets that were sent with success, and `wire` what the connection has taken.
pub record Arrives (packets sent : List (List ℕ)) (wire : List ℕ) : Type 0 where
  pub others : List (List ℕ)
  pub in_order : packets ≡ sent ++ others
  pub whole :
      (chunks : List (List ℕ))
      → concat chunks ≡ wire
      → (rest : List ℕ) × (receive_all (some (go [] [])) chunks ≡ some (go sent rest))
  pub so_far :
      (chunks : List (List ℕ)) (lost : List ℕ)
      → concat chunks ++ lost ≡ wire
      → IsBeginning sent (receive_all (some (go [] [])) chunks)

-- Over one connection from the camera to the gateway, with packets of 1 to 2 MiB bytes and a socket that
-- asks for at most `r` retries in a row: the calls of `sendPacket`, up to the first that fails, return. The
-- packets that they answered true for are the first ones, in order. However TCP cuts the bytes into reads,
-- the gateway hands on exactly these packets when all bytes have arrived, and at any time before, or if
-- the connection breaks, a beginning of them: never a packet that is cut, altered or out of order.
pub send_packets-Arrives :
    (socket : Socket) (r fuel fd : ℕ) (client : FramedTcpClient) (packets : List (List ℕ))
    (link : Link)
    → IsPatient r socket
    → client.sock ≡ some fd
    → 4 * (r + 1) < fuel
    → link.wire ≡ []
    → All (IsSendable r fuel) packets
    → (sent : List (List ℕ)) × (after : Link) × (send_packets socket fuel client packets link
        ≡ some (sent, after))
      × Arrives packets sent after.wire
send_packets-Arrives socket r fuel fd client packets link patient is_open header_fuel fresh h =
    let (sent, after, runs, s) =
      send_packets-Streamed socket r patient fuel fd client is_open header_fuel packets link h in
    let wire = s.wire ∙ ap (λ t. t ++ (framed_all sent ++ s.part)) fresh in
    (
      sent,
      after,
      runs,
      record {
        others = s.others;
        in_order = s.in_order;
        whole = λ chunks e.
            (s.part, receive_all-framed_all sent s.part chunks s.sized s.part_partial (e ∙ wire));
        so_far = λ chunks lost e.
            and_then-IsBeginning (receive_all (some (go [] [])) chunks) lost sent s.part (
              sym (receive_all-append (some (go [] [])) chunks lost)
              ∙ receive_all-framed_all sent s.part (chunks ++ lost ∷ []) s.sized s.part_partial (
                  concat-append chunks (lost ∷ [])
                  ∙ ap (λ t. concat chunks ++ t) (append-nil lost)
                  ∙ e
                  ∙ wire));
      },
    )

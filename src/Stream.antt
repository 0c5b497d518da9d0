-- ===== src/Stream.antt =====
-- stream/src/FramedTcpClient.cpp: the client that sends each H.264 packet behind its length.
pub mod Loop
pub mod Ends
pub mod Delivery
mod Tests
use edgevision_rv1126b.Prelude.{
  ℕ, zero, suc, ◌+◌, ◌-◌, ◌%◌, ◌^◌, Bool, true, false, List, [], ◌∷◌, ◌++◌, Option, none, some, ltb,
  length, take, drop, if◌then◌else◌,
}
use edgevision_rv1126b.Prelude.Int.{ℤ}
use edgevision_rv1126b.Wire.{be32}
use edgevision_rv1126b.Socket.{Socket, Link, SendResult, sent, interrupted, would_block, failed}

-- `sock` is `none` where the code has -1.
pub record FramedTcpClient : Type 0 where
  pub server_ip : List ℕ
  pub server_port : ℤ
  pub sock : Option ℕ

unfoldable pub create : List ℕ → ℤ → FramedTcpClient
create server_ip server_port = record {
  server_ip = server_ip;
  server_port = server_port;
  sock = none;
}

-- The descriptor that is closed, if one is open, and the client after it.
unfoldable pub close_connection : FramedTcpClient → FramedTcpClient × Option ℕ
close_connection client = (record client { sock = none }, client.sock)

unfoldable pub is_connected : FramedTcpClient → Bool
is_connected client = elim client.sock [ none ↦ false | some _ ↦ true ]

-- What the system calls of `connectOnce` answer.
pub record Attempt : Type 0 where
  -- `socket`, `none` for an error.
  pub opened : Option ℕ
  -- `inet_pton` accepts the address.
  pub valid_ip : Bool
  -- `connect` succeeds.
  pub accepted : Bool

-- The client, the answer, and the descriptors closed on the way.
unfoldable pub connect_once : FramedTcpClient → Attempt → FramedTcpClient × Bool × List ℕ
connect_once client attempt =
    let (closed, old) = close_connection client in
    let closes : List ℕ = elim old [ none ↦ [] | some fd ↦ fd ∷ [] ] in
    elim attempt.opened [
      | none ↦ (record closed { sock = none }, false, closes)
      | some fd ↦
          if attempt.valid_ip
          then (if attempt.accepted
              then (record closed { sock = some fd }, true, closes)
              else (record closed { sock = none }, false, closes ++ fd ∷ []))
          else (record closed { sock = none }, false, closes ++ fd ∷ [])
    ]

module _ (socket : Socket) where
  -- The loop of `sendAll`, one call of `send` for each fuel; `none` says that it is still trying.
  unfoldable pub send_from : ℕ → List ℕ → ℕ → Link → Option (Bool × Link)
  send_from zero bytes total_sent link = none
  send_from (suc fuel) bytes total_sent link =
      let size : ℕ = length bytes - total_sent in
      let next : Link = record link { calls = link.calls + 1 } in
      let round : Option (Bool × Link) = elim (socket.send link.calls size) [
        | sent n ↦
            send_from fuel bytes (total_sent + n)
              (record next { wire = link.wire ++ take n (drop total_sent bytes) })
        | interrupted ↦ send_from fuel bytes total_sent next
        | would_block ↦ send_from fuel bytes total_sent next
        | failed ↦ some (false, next)
      ] in
      if ltb total_sent (length bytes) then round else some (true, link)

  unfoldable pub send_all : ℕ → List ℕ → Link → Option (Bool × Link)
  send_all fuel bytes link = send_from fuel bytes 0 link

  -- `fuel` is for each of the two calls of `sendAll`.
  unfoldable pub send_packet : ℕ → FramedTcpClient → List ℕ → Link → Option (Bool × Link)
  send_packet fuel client packet link = elim client.sock [
    | none ↦ some (false, link)
    | some _ ↦ elim (send_all fuel (be32 (length packet % 2 ^ 32)) link) [
      | none ↦ none
      | some (false, after) ↦ some (false, after)
      | some (true, after) ↦ send_all fuel packet after
    ]
  ]

-- ===== src/Gateway/Sender.antt =====
-- `TcpServer::senderLoop`: the inner loop that sends a viewer's queue until it is empty, the system
-- takes no more, or the connection is broken.
pub mod Progress
pub mod Turns
mod Tests
use edgevision_rv1126b.Prelude.{
  ℕ, zero, suc, ◌+◌, ◌-◌, Bool, true, false, List, [], ◌∷◌, ◌++◌, Option, none, some, ◌==◌,
  if◌then◌else◌, length, take, drop,
}
use edgevision_rv1126b.Prelude.Maps.{Map}
use edgevision_rv1126b.Socket.{Socket, Link, SendResult, sent, interrupted, would_block, failed}
use edgevision_rv1126b.Gateway.State.{Viewer}

-- What follows a positive answer: the offset grows, and a chunk that is sent leaves the queue.
unfoldable pub advance : Viewer → List ℕ → List (List ℕ) → ℕ → Viewer
advance viewer chunk rest n =
    if (viewer.current_offset + n) == length chunk
    then record viewer { send_queue = rest; current_offset = 0 }
    else record viewer { current_offset = viewer.current_offset + n }

module _ (socket : Socket) where
  -- Each call of `send` takes one fuel; `none` says that it ran out. The flag says that the
  -- descriptor was put on the list of dead ones.
  unfoldable pub send_queued : ℕ → Viewer → Link → Option (Viewer × Link × Bool)
  unfolding advance
  send_queued zero viewer link = none
  send_queued (suc fuel) viewer link = elim viewer.send_queue [
    | [] ↦ some (viewer, link, false)
    | chunk ∷ rest ↦
        let size : ℕ = length chunk - viewer.current_offset in
        let next : Link = record link { calls = link.calls + 1 } in
        let round : Option (Viewer × Link × Bool) = elim (socket.send link.calls size) [
          | sent n ↦
              send_queued fuel (advance viewer chunk rest n)
                (record next { wire = link.wire ++ take n (drop viewer.current_offset chunk) })
          | interrupted ↦ some (viewer, next, false)
          | would_block ↦ some (viewer, next, false)
          | failed ↦ some (record viewer { active = false }, next, true)
        ] in
        if viewer.active then round else some (viewer, link, false)
  ]

abbrev pub queued_bytes : List (List ℕ) → ℕ
queued_bytes [] = 0
queued_bytes (chunk ∷ chunks) = length chunk + queued_bytes chunks

-- The links of all descriptors.
abbrev pub set_link : ℕ → Link → (ℕ → Link) → ℕ → Link
set_link fd link links other = if fd == other then link else links other

module _ (sockets : ℕ → Socket) where
  -- The loop over the viewers: the map after it, the links, and the list of dead descriptors. A call
  -- of `send` takes at least one byte, so the bytes queued are fuel enough for a viewer.
  unfoldable pub send_to_viewers :
      Map Viewer → (ℕ → Link) → Option (Map Viewer × (ℕ → Link) × List ℕ)
  send_to_viewers [] links = some ([], links, [])
  send_to_viewers ((fd, viewer) ∷ viewers) links =
      elim (send_queued (sockets viewer.fd) (queued_bytes viewer.send_queue + 1) viewer
        (links viewer.fd)) [
          | none ↦ none
          | some (after, link, dead) ↦
              elim (send_to_viewers viewers (set_link viewer.fd link links)) [
                | none ↦ none
                | some (rest, links', dead_fds) ↦
                    some
                      ((fd, after) ∷ rest, links', if dead then viewer.fd ∷ dead_fds else dead_fds)
              ]
        ]

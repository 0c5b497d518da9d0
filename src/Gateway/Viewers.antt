-- ===== src/Gateway/Viewers.antt =====
-- `TcpServer::queueFrameForViewers`: a complete frame goes to the send queue of each viewer, and a
-- viewer that lags loses its oldest frames.
pub mod Queues
mod Tests
use edgevision_rv1126b.Prelude.{
  ℕ, zero, suc, ◌+◌, Bool, true, false, ◌&&◌, List, [], ◌∷◌, ◌++◌, Option, none, some, ltb, leb,
  ◌==◌, if◌then◌else◌, length,
}
use edgevision_rv1126b.Prelude.Maps.{Map}
use edgevision_rv1126b.Gateway.State.{Viewer, max_queued_frames}

-- `while (send_queue.size() >= MAX_QUEUED_FRAMES) send_queue.pop_front();`
unfoldable pub drop_oldest : List (List ℕ) → List (List ℕ)
drop_oldest [] = []
drop_oldest (chunk ∷ chunks) =
    let rest = drop_oldest chunks in
    if leb max_queued_frames (length (chunk ∷ chunks)) then rest else chunk ∷ chunks

-- The loop for a chunk that is being sent: while the queue has `MAX_QUEUED_FRAMES` chunks and more
-- than one, erase the second. `current` is the first; nothing happens to an empty queue.
unfoldable pub drop_behind : List ℕ → List (List ℕ) → List (List ℕ)
drop_behind current [] = current ∷ []
drop_behind current (chunk ∷ chunks) =
    let rest = drop_behind current chunks in
    if leb max_queued_frames (length (current ∷ chunk ∷ chunks))
      && ltb 1 (length (current ∷ chunk ∷ chunks))
    then rest
    else current ∷ chunk ∷ chunks

abbrev pub drop_stale : List (List ℕ) → List (List ℕ)
drop_stale [] = []
drop_stale (current ∷ chunks) = drop_behind current chunks

-- The queue of a viewer with room made for one more chunk.
unfoldable pub make_room : Viewer → List (List ℕ)
unfolding drop_oldest drop_behind
make_room viewer =
    if leb max_queued_frames (length viewer.send_queue)
    then (if viewer.current_offset == 0
        then drop_oldest viewer.send_queue
        else drop_stale viewer.send_queue)
    else viewer.send_queue

-- The loop's body for one viewer that is active.
unfoldable pub queue_frame : List ℕ → Viewer → Viewer
unfolding make_room
queue_frame frame viewer = record viewer { send_queue = make_room viewer ++ frame ∷ [] }

-- The loop over the viewers: the map after it, and the descriptors of the inactive ones.
unfoldable pub queue_frame_all : List ℕ → Map Viewer → Map Viewer × List ℕ
unfolding queue_frame
queue_frame_all frame [] = ([], [])
queue_frame_all frame ((fd, viewer) ∷ viewers) =
    let (rest, dead) = queue_frame_all frame viewers in
    if viewer.active
    then ((fd, queue_frame frame viewer) ∷ rest, dead)
    else ((fd, viewer) ∷ rest, viewer.fd ∷ dead)

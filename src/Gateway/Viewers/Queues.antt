-- ===== src/Gateway/Viewers/Queues.antt =====
-- What a lagging viewer keeps: its queue is the queue of the newest frames, behind the chunk that is
-- being sent.
use edgevision_rv1126b.Prelude.{
  ℕ, zero, suc, ◌≤◌, ◌<◌, ◌≡◌, ◌≢◌, refl, sym, ap, List, [], ◌∷◌, ◌++◌, arith, length, drop, All,
  All-append,
}
use edgevision_rv1126b.NewestQueue
use edgevision_rv1126b.NewestQueue.{newest, newest_fits, newest-cons, enqueue-newest, length-newest}
use edgevision_rv1126b.Gateway.State.{Viewer, max_queued_frames}
use edgevision_rv1126b.Gateway.Viewers.{drop_oldest, drop_behind, make_room, queue_frame}

drop_oldest-newest : (xs : List (List ℕ)) → drop_oldest xs ≡ newest 14 xs
unfolding drop_oldest
drop_oldest-newest [] = sym (newest_fits 14 [] (omega arith))
drop_oldest-newest (x ∷ xs) =
    ground (arith, drop_oldest-newest xs, newest_fits 14 (x ∷ xs), newest-cons 14 x xs)

drop_behind-newest :
    (current : List ℕ) (xs : List (List ℕ)) → drop_behind current xs ≡ current ∷ newest 13 xs
unfolding drop_behind
drop_behind-newest current [] = ap (λ l. current ∷ l) (sym (newest_fits 13 [] (omega arith)))
drop_behind-newest current (x ∷ xs) =
    ground (arith, drop_behind-newest current xs, newest_fits 13 (x ∷ xs), newest-cons 13 x xs)

make_room_idle : (v : Viewer) → v.current_offset ≡ 0 → make_room v ≡ newest 14 v.send_queue
unfolding make_room
make_room_idle v e = ground (arith, drop_oldest-newest v.send_queue, newest_fits 14 v.send_queue)

make_room_busy :
    (v : Viewer) (current : List ℕ) (xs : List (List ℕ))
    → v.current_offset ≢ 0
    → v.send_queue ≡ current ∷ xs
    → make_room v ≡ current ∷ newest 13 xs
unfolding make_room
make_room_busy v current xs ne e = ground (arith, drop_behind-newest current xs, newest_fits 13 xs)

-- The first chunk, once a part of it is sent, and the whole chunks behind that.
abbrev pub Placed : ℕ → List (List ℕ) → Type 0
Placed offset [] = offset ≡ 0
Placed offset (chunk ∷ chunks) = offset < length chunk

-- The state of a viewer between two calls.
pub record IsValid (v : Viewer) : Type 0 where
  pub placed : Placed v.current_offset v.send_queue
  pub filled : All (λ chunk. 0 < length chunk) v.send_queue
  pub bounded : length v.send_queue ≤ max_queued_frames

-- The queue that `queueFrameForViewers` leaves: while the first chunk is not begun, the newest 15 of
-- the old chunks and the frame; else that chunk and the newest 14 of the others and the frame.
abbrev pub queued : List ℕ → ℕ → List (List ℕ) → List (List ℕ)
queued frame zero chunks = NewestQueue.enqueue 15 chunks frame
queued frame (suc offset) [] = frame ∷ []
queued frame (suc offset) (current ∷ chunks) = current ∷ NewestQueue.enqueue 14 chunks frame

queue_frame-queued :
    (frame : List ℕ) (v : Viewer) (offset : ℕ) (chunks : List (List ℕ))
    → v.current_offset ≡ offset
    → v.send_queue ≡ chunks
    → (queue_frame frame v).send_queue ≡ queued frame offset chunks
unfolding queue_frame
queue_frame-queued frame v zero chunks eo ec =
    rw (make_room_idle v eo, ec) (sym (enqueue-newest 14 chunks frame))
queue_frame-queued frame v (suc offset) [] eo ec = ground arith
queue_frame-queued frame v (suc offset) (current ∷ chunks) eo ec =
    rw (make_room_busy v current chunks (omega arith) ec)
      (ap (λ l. current ∷ l) (sym (enqueue-newest 13 chunks frame)))

All-drop : (P : List ℕ → Type 0) (n : ℕ) (xs : List (List ℕ)) → All P xs → All P (drop n xs)
All-drop P zero xs h = h
All-drop P (suc n) [] h = h
All-drop P (suc n) (x ∷ xs) (p, h) = All-drop P n xs h

All-enqueue :
    (P : List ℕ → Type 0) (cap : ℕ) (xs : List (List ℕ)) (x : List ℕ)
    → All P xs
    → P x
    → All P (NewestQueue.enqueue cap xs x)
unfolding NewestQueue.enqueue
All-enqueue P cap xs x h p = All-drop P _ (xs ++ x ∷ []) (All-append P xs (x ∷ []) h (p, tt))

abbrev pub Filled : List (List ℕ) → Type 0
Filled = All (λ chunk. 0 < length chunk)

pub Placed-start : (chunks : List (List ℕ)) → Filled chunks → Placed 0 chunks
Placed-start [] h = refl
Placed-start (chunk ∷ chunks) h = h.0

queued-Placed :
    (frame : List ℕ) (offset : ℕ) (chunks : List (List ℕ))
    → 0 < length frame
    → Placed offset chunks
    → Filled chunks
    → Placed offset (queued frame offset chunks)
queued-Placed frame zero chunks pos p h =
    Placed-start _ (All-enqueue (λ chunk. 0 < length chunk) 15 chunks frame h pos)
queued-Placed frame (suc offset) [] pos p h = absurd (omega arith)
queued-Placed frame (suc offset) (current ∷ chunks) pos p h = p

queued-Filled :
    (frame : List ℕ) (offset : ℕ) (chunks : List (List ℕ))
    → 0 < length frame
    → Filled chunks
    → Filled (queued frame offset chunks)
queued-Filled frame zero chunks pos h =
    All-enqueue (λ chunk. 0 < length chunk) 15 chunks frame h pos
queued-Filled frame (suc offset) [] pos h = (pos, tt)
queued-Filled frame (suc offset) (current ∷ chunks) pos h =
    (h.0, All-enqueue (λ chunk. 0 < length chunk) 14 chunks frame h.1 pos)

length-queued :
    (frame : List ℕ) (offset : ℕ) (chunks : List (List ℕ))
    → length (queued frame offset chunks) ≤ max_queued_frames
unfolding NewestQueue.enqueue
length-queued frame zero chunks = length-newest 15 (chunks ++ frame ∷ [])
length-queued frame (suc offset) [] = omega arith
length-queued frame (suc offset) (current ∷ chunks) =
    omega (arith, length-newest 14 (chunks ++ frame ∷ []))

-- `queueFrameForViewers` on one active viewer in a valid state: the send queue is `queued` of the old
-- one, so the chunk that is being sent stays in front, the new frame comes last, only oldest whole
-- chunks are thrown away, and no more than 15 chunks are queued; the progress on the first chunk,
-- the descriptor and the flag stay; and the new state is valid.
pub queue_frame_refines :
    (frame : List ℕ) (v : Viewer)
    → 0 < length frame
    → IsValid v
    → let w = queue_frame frame v in
      (w.send_queue ≡ queued frame v.current_offset v.send_queue)
      × (w.current_offset ≡ v.current_offset)
      × (w.fd ≡ v.fd)
      × (w.active ≡ v.active)
      × IsValid w
unfolding queue_frame
queue_frame_refines frame v pos h =
    let e = queue_frame-queued frame v v.current_offset v.send_queue refl refl in
    (
      e,
      refl,
      refl,
      refl,
      record {
        placed = rw e (queued-Placed frame v.current_offset v.send_queue pos h.placed h.filled);
        filled = rw e (queued-Filled frame v.current_offset v.send_queue pos h.filled);
        bounded = rw e (length-queued frame v.current_offset v.send_queue);
      },
    )

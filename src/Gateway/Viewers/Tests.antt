-- ===== src/Gateway/Viewers/Tests.antt =====
-- A viewer with a full queue.
use edgevision_rv1126b.Prelude.{◌≡◌, refl, true, [], ◌∷◌, ◌++◌, arith, replicate}
use edgevision_rv1126b.Gateway.State.{Viewer}
use edgevision_rv1126b.Gateway.Viewers.{drop_behind, make_room, queue_frame}
use edgevision_rv1126b.Gateway.Viewers.Queues.{IsValid, queued, queue_frame_refines}

-- The first of fifteen chunks is half sent.
abbrev lagging : Viewer
lagging = record {
  fd = 5;
  send_queue = (1 ∷ 2 ∷ []) ∷ (3 ∷ []) ∷ replicate 13 (4 ∷ []);
  current_offset = 1;
  active = true;
}

lagging-IsValid : IsValid lagging
lagging-IsValid = record { placed = omega arith; filled = omega arith; bounded = omega arith }

-- The oldest whole chunk makes room.
queue_frame-lagging :
    (queue_frame (9 ∷ []) lagging).send_queue
    ≡ (1 ∷ 2 ∷ []) ∷ (replicate 13 (4 ∷ []) ++ (9 ∷ []) ∷ [])
unfolding queue_frame make_room drop_behind
queue_frame-lagging = refl

queue_frame_refines_example :
    ((queue_frame (9 ∷ []) lagging).send_queue ≡ queued (9 ∷ []) 1 lagging.send_queue)
    × ((queue_frame (9 ∷ []) lagging).current_offset ≡ 1)
    × ((queue_frame (9 ∷ []) lagging).fd ≡ 5)
    × ((queue_frame (9 ∷ []) lagging).active ≡ true)
    × IsValid (queue_frame (9 ∷ []) lagging)
queue_frame_refines_example = queue_frame_refines (9 ∷ []) lagging (omega arith) lagging-IsValid

-- ===== src/FrameQueue/Tests.antt =====
-- The frame queue on small inputs.
use edgevision_rv1126b.Prelude.{ℕ, ◌≡◌, refl, Bool, true, [], ◌∷◌, some, arith, List}
use edgevision_rv1126b.Frame.{CapturedFrame, blank}
use edgevision_rv1126b.FrameQueue.{FrameQueue, create, push, wait_and_pop, stop}
use edgevision_rv1126b.FrameQueue.Laws.{Pushed, create-IsValid, push_refines}
use edgevision_rv1126b.FrameQueue.Runs.{
  Call, pushes, pops, stops, Removal, delivered, dropped, Conserves, pushed, run, run-Conserves,
}

abbrev frame_no : ℕ → CapturedFrame
frame_no n = record blank { sequence = n }

abbrev calls : List Call
calls =
    pushes (frame_no 0)
    ∷ pushes (frame_no 1)
    ∷ pushes (frame_no 2)
    ∷ pops
    ∷ stops
    ∷ pops
    ∷ pops
    ∷ []

-- With two places the third frame pushes the first one out.
run_two_places :
    run (create 2) calls
    ≡ some (
      record { capacity = 2; stopped = true; dropped_frames = 1; queue = [] },
      dropped (frame_no 0) ∷ delivered (frame_no 1) ∷ delivered (frame_no 2) ∷ [],
    )
unfolding run create push wait_and_pop stop
run_two_places = refl

push_refines_example :
    (after : FrameQueue) × (flag : Bool) × Pushed (create 1) (frame_no 7) after flag
push_refines_example = push_refines (create 1) (frame_no 7) (create-IsValid 1 (omega arith))

run-Conserves_example :
    (last : FrameQueue) × (log : List Removal) × (run (create 2) calls ≡ some (last, log))
    × Conserves (create 2) (pushed calls) last log
run-Conserves_example = run-Conserves (create 2) calls (create-IsValid 2 (omega arith))

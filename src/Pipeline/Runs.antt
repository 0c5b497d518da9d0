-- ===== src/Pipeline/Runs.antt =====
-- The threads of camera/src/main.cpp under any schedule.
use edgevision_rv1126b.Prelude.{◌<◌, ◌≡◌, refl, List, [], ◌∷◌}
use edgevision_rv1126b.Prelude.Int.{ℤ}
use edgevision_rv1126b.Overlay.{DetectionOverlay}
use edgevision_rv1126b.Metrics.{MetricsCollector}
use edgevision_rv1126b.Pipeline.{Config, System, Action, start}
use edgevision_rv1126b.Pipeline.Threads.{Turn, waits, faults, goes, act}
use edgevision_rv1126b.Pipeline.Invariant.{IsSound, Sound, Tenths, act-Sound, start-IsSound}

-- The threads run as they like: an action of a thread that waits changes nothing.
unfoldable pub run : {F : Type 0} → (F → ℤ) → Config → System F → List (Action F) → Turn F
run rounded config s [] = goes s
run rounded config s (action ∷ actions) = elim (act rounded config s action) [
  | waits ↦ run rounded config s actions
  | faults ↦ faults
  | goes next ↦ run rounded config next actions
]

abbrev pub Reaches : {F : Type 0} → Turn F → Type 0
Reaches {F} turn = (last : System F) × (turn ≡ goes last) × IsSound last

module _ {F : Type 0} (rounded : F → ℤ) (config : Config)
    (fits : Tenths config.metrics_interval_sec) where
  run-Reaches :
      (actions : List (Action F)) (s : System F)
      → IsSound s
      → Reaches (run rounded config s actions)
  unfolding run
  run-Reaches [] s v = (s, refl, v)
  run-Reaches (action ∷ actions) s v =
      after (act rounded config s action) (act-Sound rounded config fits s action v)
        (λ t w. run-Reaches actions t w)
    where
      after :
          (turn : Turn F)
          → Sound turn
          → ((t : System F) → IsSound t → Reaches (run rounded config t actions))
          → Reaches (elim turn [
            | waits ↦ run rounded config s actions
            | faults ↦ faults
            | goes next ↦ run rounded config next actions
          ])
      after waits sound rest = rest s v
      after faults sound rest = absurd sound
      after (goes next) sound rest = rest next sound

  -- With queues that hold a frame and an interval of the metrics whose tenfold is an `int`, the camera
  -- process runs on whatever its threads do in whatever order and whatever they are answered, without
  -- undefined behaviour in a queue or in the overlay. At any
  -- time its queues are bounded; once `main` has left its loop, no thread is told to run on; behind each
  -- of its stops that queue is stopped, and behind each of its joins that thread has ended.
  pub run-IsSound :
      (overlay : DetectionOverlay F) (collector : MetricsCollector) (actions : List (Action F))
      → 0 < config.encode_queue_capacity
      → 0 < config.ai_queue_capacity
      → Reaches (run rounded config (start config overlay collector) actions)
  run-IsSound overlay collector actions he ha =
      run-Reaches actions (start config overlay collector)
        (start-IsSound config overlay collector he ha)

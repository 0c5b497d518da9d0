-- ===== src/Pipeline/Tests.antt =====
-- A run of the camera process with a queue for one frame, until a packet cannot be sent.
use edgevision_rv1126b.Prelude.{
  zero, suc, Bool, Option, All, inl, inr, replicate, ℕ, ◌≡◌, refl, true, false, List, [], ◌∷◌, some,
  none, arith,
}
use edgevision_rv1126b.Prelude.Int.{pos}
use edgevision_rv1126b.FrameQueue.{create, push, wait_and_pop}
use edgevision_rv1126b.Overlay
use edgevision_rv1126b.Overlay.{DetectionOverlay}
use edgevision_rv1126b.Metrics
use edgevision_rv1126b.Metrics.{MetricsCollector, ProcSample}
use edgevision_rv1126b.Pipeline.{Config, System, Action, start, infers}
use edgevision_rv1126b.Pipeline.Threads.{goes, act, capture_acts, encode_acts}
use edgevision_rv1126b.Pipeline.Runs.{run}
use edgevision_rv1126b.Pipeline.Accounts.{Accounts}
use edgevision_rv1126b.Pipeline.Accounts.Runs.{run-Accounts}
use edgevision_rv1126b.AppConfig.{AppConfig, read_config, from_environment}
use edgevision_rv1126b.Pipeline.Setup.{Works, from_environment-Works}
use edgevision_rv1126b.Pipeline.Ending.{Ending, shutdown-Ending}
use edgevision_rv1126b.Pipeline.Rounds.{IsRound}
use edgevision_rv1126b.Ai.{AiResult}

abbrev config : Config
config = record {
  ai_ready = true;
  ai_enabled = true;
  infer_every_n_frames = 2;
  metrics_interval_sec = pos 5;
  encode_queue_capacity = 1;
  ai_queue_capacity = 1;
  width = pos 1;
  height = pos 2;
}

abbrev overlay : DetectionOverlay ℕ
overlay = record {
  enabled = false;
  box_thickness = pos 1;
  stale_frame_window = pos 1;
  snapshot = record { valid = false; frame_sequence = 0; detections = [] };
}

abbrev collector : MetricsCollector
collector =
    Metrics.create 0 4096 (pos 4)
      (record { total_jiffies = 0; process_jiffies = 0; rss_pages = 0; valid = false })

abbrev captures : Action ℕ
captures = Action.capture (some (1 ∷ 2 ∷ 3 ∷ [])) 7

abbrev encodes : Action ℕ
encodes = Action.encode true (some (9 ∷ [])) 5 (some false)

-- Two frames are captured, the first of which is dropped; the packet of the second is refused.
abbrev actions : List (Action ℕ)
actions =
    encodes ∷ captures ∷ captures ∷ captures ∷ captures ∷ captures ∷ captures ∷ captures ∷ captures
    ∷ captures ∷ captures ∷ captures ∷ encodes ∷ encodes ∷ encodes ∷ encodes ∷ encodes ∷ encodes
    ∷ []

run_test :
    (s : System ℕ) × (run pos config (start config overlay collector) actions ≡ goes s)
    × (s.running ≡ false)
    × (s.packets ≡ [])
    × (s.metrics_collector.counters.encode_queue_drops ≡ 1)
    × (s.metrics_collector.counters.captured_frames ≡ 2)
unfolding run start act capture_acts encode_acts push create wait_and_pop infers Overlay.apply
    Metrics.create Metrics.record_encode Metrics.record_capture Metrics.record_encode_queue_drop
run_test = (_, refl, refl, refl, refl, refl)

abbrev no_proc : ProcSample
no_proc = record { total_jiffies = 0; process_jiffies = 0; rss_pages = 0; valid = false }

abbrev no_result : AiResult ℕ
no_result = record {
  valid = false;
  frame_sequence = 0;
  capture_time_us = 0;
  backend = [];
  note = [];
  detections = [];
}

-- A turn of each thread.
abbrev round : Option Bool → List (Action ℕ)
round sends =
    Action.main
    ∷ Action.capture none 0
    ∷ Action.encode true none 0 sends
    ∷ Action.ai no_result 0
    ∷ Action.metrics 0 no_proc
    ∷ []

round-IsRound : (sends : Option Bool) → IsRound (round sends)
round-IsRound none = (
  (refl, (refl, (refl, (refl, (refl, tt))))),
  inr (inl tt),
  inr (inr (inl tt)),
  inr (inr (inr (inl tt))),
  inr (inr (inr (inr (inl tt)))),
  inl tt,
)
round-IsRound (some sent) = (
  (refl, (refl, (refl, (refl, (refl, tt))))),
  inr (inl tt),
  inr (inr (inl tt)),
  inr (inr (inr (inl tt))),
  inr (inr (inr (inr (inl tt)))),
  inl tt,
)

-- A round in which `sendPacket` would not return, and others in which it would.
abbrev rounds : List (List (Action ℕ))
rounds = round none ∷ replicate 33 (round (some true))

replicate-IsRound : (n : ℕ) → All IsRound (replicate n (round (some true)))
replicate-IsRound zero = tt
replicate-IsRound (suc n) = (round-IsRound (some true), replicate-IsRound n)

shutdown-Ending_example : Ending pos config run_test.0 rounds
shutdown-Ending_example =
    shutdown-Ending pos config overlay collector actions run_test.0 rounds (omega arith)
      (omega arith) (omega arith) run_test.1 run_test.2 (round-IsRound none, replicate-IsRound 33)
      (omega arith)

run-Accounts_example : Accounts config run_test.0
unfolding Metrics.create
run-Accounts_example =
    run-Accounts pos config overlay collector actions run_test.0 (omega arith) (omega arith) refl
      run_test.1

-- An empty environment.
from_environment-Works_example :
    (app : AppConfig ℕ) × (from_environment (λ key. none) (λ text. pos 0) (λ text. 0) 35 45
      ≡ some app)
    × Works pos app
unfolding read_config
from_environment-Works_example =
    from_environment-Works (λ key. none) (λ text. pos 0) (λ text. 0) 35 45 pos (omega arith)
      (omega arith)

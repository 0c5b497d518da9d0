-- ===== src/Pipeline/Setup.antt =====
-- `main` of camera/src/main.cpp up to its threads: the queues, the overlay and the numbers that the threads
-- read, out of the configuration. What the camera, the detector and the clocks answer are inputs.
use edgevision_rv1126b.Prelude.{
  ℕ, ◌+◌, ◌-◌, ◌^◌, ◌<◌, ◌≡◌, Bool, false, List, Option, some, arith, All, length, sym, subst,
  if-intro,
}
use edgevision_rv1126b.Prelude.Int.{ℤ, pos, negsuc, ltb_ℤ}
use edgevision_rv1126b.AppConfig.{AppConfig, read_config, from_environment, positive_or}
use edgevision_rv1126b.AppConfig.Repaired.{
  IsPositive, Triples, Repaired, from_environment-Repaired, repair_interval,
}
use edgevision_rv1126b.Overlay
use edgevision_rv1126b.Metrics.{MetricsCollector}
use edgevision_rv1126b.Pipeline.{Config, System, Action, start}
use edgevision_rv1126b.Pipeline.Threads.{goes}
use edgevision_rv1126b.Pipeline.Runs.{run}
use edgevision_rv1126b.Pipeline.Invariant.{Tenths}
use edgevision_rv1126b.Pipeline.Runs.{Reaches, run-IsSound}
use edgevision_rv1126b.Pipeline.Ending.{Ending, shutdown-Ending}
use edgevision_rv1126b.Pipeline.Rounds.{IsRound, delays_of}

-- `static_cast<size_t>` of an `int`.
abbrev pub as_size : ℤ → ℕ
as_size (pos n) = n
as_size (negsuc n) = 2 ^ 64 - (n + 1)

as_size-lt : (z : ℤ) → IsPositive z → 0 < as_size z
as_size-lt (pos n) h = ground arith
as_size-lt (negsuc n) h = absurd (ground arith)

positive_or-Tenths : (z : ℤ) → Tenths z → Tenths (positive_or z (pos 5))
positive_or-Tenths z fits = if-intro Tenths (ltb_ℤ (pos 0) z) (λ t. fits) (λ f. omega arith)

module _ {F : Type 0} where
  unfoldable pub config_of : AppConfig F → Bool → ℤ → ℤ → Config
  config_of config ai_ready width height = record {
    ai_ready = ai_ready;
    ai_enabled = config.ai.enabled;
    infer_every_n_frames = as_size config.ai.infer_every_n_frames;
    metrics_interval_sec = config.metrics_interval_sec;
    encode_queue_capacity = as_size config.encode_queue_capacity;
    ai_queue_capacity = as_size config.ai_queue_capacity;
    width = width;
    height = height;
  }

  -- The process when `main` has started its threads.
  unfoldable pub set_up : AppConfig F → Bool → ℤ → ℤ → MetricsCollector → System F
  unfolding config_of start Overlay.create
  set_up config ai_ready width height collector =
      start (config_of config ai_ready width height)
        (Overlay.create config.overlay_enable config.overlay_box_thickness
          config.overlay_stale_frames)
        collector

  -- The process that `main` sets up from a configuration, whatever camera and detector answer.
  pub record Works (rounded : F → ℤ) (config : AppConfig F) : Type 0 where
    -- `%` by the frames from one inference to the next is defined.
    pub divides :
        (ai_ready : Bool) (width height : ℤ)
        → 0 < (config_of config ai_ready width height).infer_every_n_frames
    pub sound :
        (ai_ready : Bool) (width height : ℤ) (collector : MetricsCollector)
        (actions : List (Action F))
        → Reaches (
            run rounded
              (config_of config ai_ready width height)
              (set_up config ai_ready width height collector)
              actions)
    pub ends :
        (ai_ready : Bool) (width height : ℤ) (collector : MetricsCollector)
        (actions : List (Action F)) (s : System F) (rounds : List (List (Action F)))
        → run rounded
            (config_of config ai_ready width height)
            (set_up config ai_ready width height collector)
            actions
          ≡ goes s
        → s.running ≡ false
        → All IsRound rounds
        → 32 + delays_of rounds < length rounds
        → Ending rounded (config_of config ai_ready width height) s rounds

  Repaired-Works :
      (rounded : F → ℤ) (read config : AppConfig F)
      → Repaired read config
      → Tenths config.metrics_interval_sec
      → Works rounded config
  unfolding set_up config_of
  Repaired-Works rounded read config r fits = record {
    divides = λ ai_ready width height. as_size-lt config.ai.infer_every_n_frames r.every_n.0;
    sound = λ ai_ready width height collector actions.
        run-IsSound rounded (config_of config ai_ready width height) fits _ collector actions
          (as_size-lt config.encode_queue_capacity r.encode_capacity.0)
          (as_size-lt config.ai_queue_capacity r.ai_capacity.0);
    ends = λ ai_ready width height collector actions s rounds e off all enough.
        shutdown-Ending rounded (config_of config ai_ready width height) _ collector actions s
          rounds (as_size-lt config.encode_queue_capacity r.encode_capacity.0)
          (as_size-lt config.ai_queue_capacity r.ai_capacity.0) fits e off all enough;
  }

  -- Whatever the environment of the process holds, if three times the `AICAM_INFER_EVERY_N` and ten times the
  -- `AICAM_METRICS_INTERVAL` that are read fit into an `int`: `main` gets a configuration, and sets up a process that runs on under every schedule of
  -- its threads and all answers, without undefined behaviour in a queue or in the overlay, nor a division by
  -- zero in the choice of the frames for the detector, nor an overflow in the count of the metrics thread.
  -- Once `g_running` is false it comes to its end in every schedule that gives each thread enough turns, as
  -- long as `sendPacket` returns at last: once there were more rounds than 32 and the turns in which it
  -- does not.
  pub from_environment-Works :
      (getenv : List ℕ → Option (List ℕ)) (atoi : List ℕ → ℤ) (atof : List ℕ → F)
      (default_score default_nms : F) (rounded : F → ℤ)
      → Triples (read_config getenv atoi atof default_score default_nms).ai.infer_every_n_frames
      → Tenths (read_config getenv atoi atof default_score default_nms).metrics_interval_sec
      → (config : AppConfig F) × (from_environment getenv atoi atof default_score default_nms
          ≡ some config)
        × Works rounded config
  unfolding from_environment
  from_environment-Works getenv atoi atof default_score default_nms rounded h fits =
      let (config, e, r) = from_environment-Repaired getenv atoi atof default_score default_nms h in
      (
        config,
        e,
        Repaired-Works rounded (read_config getenv atoi atof default_score default_nms) config r (
            subst Tenths
              (sym
                (repair_interval (read_config getenv atoi atof default_score default_nms) config e))
              (positive_or-Tenths
                (read_config getenv atoi atof default_score default_nms).metrics_interval_sec
                fits)),
      )

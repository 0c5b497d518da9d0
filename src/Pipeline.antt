-- ===== src/Pipeline.antt =====
-- camera/src/main.cpp: the threads of the camera process over its queues, overlay and counters. A thread
-- stands at a point of its loop and makes one access to what the threads share at a time; a schedule of
-- the threads, with what the device, the encoder, the gateway and the detector answer, is a list of
-- actions. A sample of the metrics sees the counters at one moment.
pub mod Threads
pub mod Invariant
pub mod Runs
pub mod Accounts
pub mod Nearer
pub mod Progress
pub mod Rounds
pub mod Passing
pub mod Ending
pub mod Setup
mod Tests
use edgevision_rv1126b.Prelude.{
  ℕ, ◌%◌, Bool, true, false, List, [], if◌then◌else◌, ◌==◌, ◌&&◌, Option,
}
use edgevision_rv1126b.Prelude.Int.{ℤ}
use edgevision_rv1126b.Frame.{CapturedFrame}
use edgevision_rv1126b.Ai.{AiResult}
use edgevision_rv1126b.FrameQueue
use edgevision_rv1126b.FrameQueue.{FrameQueue}
use edgevision_rv1126b.Overlay.{DetectionOverlay}
use edgevision_rv1126b.Metrics.{MetricsCollector, ProcSample}

-- What `main` reads of its configuration and of the camera; `ai_ready` is the answer of the detector's
-- `initialize`. The interval from one inference to the next is positive: `from_environment` repairs it.
pub record Config : Type 0 where
  pub ai_ready : Bool
  pub ai_enabled : Bool
  pub infer_every_n_frames : ℕ
  pub metrics_interval_sec : ℤ
  pub encode_queue_capacity : ℕ
  pub ai_queue_capacity : ℕ
  pub width : ℤ
  pub height : ℤ

-- Where the capture thread stands; the number is `sequence`.
pub data CapturePc : Type 0 where
  -- `while (g_running)`
  at_loop capturing : (sequence : ℕ) → CapturePc
  -- before `encode_queue.push`, `recordEncodeQueueDrop` and `ai_queue.push`
  pushing dropped offering : (frame : CapturedFrame) (sequence : ℕ) → CapturePc
  -- before `recordAiQueueDrop` and `recordCapture`
  dropped_ai counting finished : (sequence : ℕ) → CapturePc

-- Where the encode thread stands.
pub data EncodePc : Type 0 where
  -- before `connectOnce`, and the two stops after it has failed
  connecting stopping_encode stopping_ai : EncodePc
  at_loop waiting : EncodePc
  drawing encoding : (frame : CapturedFrame) → EncodePc
  -- before `recordEncode`, `sendPacket` and `recordBytesSent`
  recording sending counting : (packet : List ℕ) → EncodePc
  closing finished : EncodePc

-- Where the AI thread stands; without a detector it is never started.
pub data AiPc (F : Type 0) : Type 0 where
  at_loop waiting : AiPc F
  inferring : (frame : CapturedFrame) → AiPc F
  -- before `overlay.update`, `recordAi`, `event_logger.write`
  updating recording logging : (result : AiResult F) → AiPc F
  -- before `recordEventWritten`
  counting finished : AiPc F

-- Where the metrics thread stands; the number is `i`.
pub data MetricsPc : Type 0 where
  at_loop : MetricsPc
  sleeping : (i : ℕ) → MetricsPc
  waking sampling last_sample finished : MetricsPc

pub data MainPc : Type 0 where
  watching stopping_encode stopping_ai : MainPc
  joining_capture joining_encode joining_ai joining_metrics finished : MainPc

-- `packets` are those that the gateway took, and `events` those that the event log took.
pub record System (F : Type 0) : Type 0 where
  pub running : Bool
  pub encode_queue : FrameQueue
  pub ai_queue : FrameQueue
  pub overlay : DetectionOverlay F
  pub metrics_collector : MetricsCollector
  pub packets : List (List ℕ)
  pub events : List (AiResult F)
  pub capture : CapturePc
  pub encode : EncodePc
  pub ai : AiPc F
  pub metrics : MetricsPc
  pub main : MainPc

-- One access of a thread, with what it is answered there: the picture of `captureFrame` and the clock;
-- `connectOnce`, the packet of `encode`, the time that it took and `sendPacket`; the result of `infer`
-- and its time; the clock and the process at a sample. `sends` is `none` while `sendPacket` does not return:
-- `sendAll` tries again when `send` takes a part or asks for a retry, without a look at `g_running`. Each
-- other call returns. A signal may come at any time.
pub data Action (F : Type 0) : Type 0 where
  capture : (shot : Option (List ℕ)) (now : ℕ) → Action F
  encode : (connects : Bool) (packet : Option (List ℕ)) (us : ℕ) (sends : Option Bool) → Action F
  ai : (result : AiResult F) (us : ℕ) → Action F
  metrics : (now : ℕ) (proc_sample : ProcSample) → Action F
  main : Action F
  signal : Action F

-- The state when `main` has started its threads.
unfoldable pub start : {F : Type 0} → Config → DetectionOverlay F → MetricsCollector → System F
start config overlay collector = record {
  running = true;
  encode_queue = FrameQueue.create config.encode_queue_capacity;
  ai_queue = FrameQueue.create config.ai_queue_capacity;
  overlay = overlay;
  metrics_collector = collector;
  packets = [];
  events = [];
  capture = CapturePc.at_loop 0;
  encode = EncodePc.connecting;
  ai = if config.ai_ready then AiPc.at_loop else AiPc.finished;
  metrics = MetricsPc.at_loop;
  main = MainPc.watching;
}

-- `infer_this_frame`.
unfoldable pub infers : Config → CapturedFrame → Bool
infers config frame =
    config.ai_ready && (config.ai_enabled && (frame.sequence % config.infer_every_n_frames) == 0)

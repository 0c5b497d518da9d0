-- ===== src/Pipeline/Accounts.antt =====
-- The counters of the capture thread against its queues, and the frames that are given to the detector.
pub mod Runs
use edgevision_rv1126b.Prelude.{
  ℕ, ◌+◌, ◌%◌, ◌^◌, ◌<◌, ◌≡◌, refl, sym, ap, subst, Bool, true, List, [], ◌∷◌, Option, none, some,
  arith, All, Bool-cases, inl, inr,
}
use edgevision_rv1126b.Prelude.Int.{ℤ}
use edgevision_rv1126b.Frame.{CapturedFrame}
use edgevision_rv1126b.Ai.{AiResult}
use edgevision_rv1126b.NewestQueue
use edgevision_rv1126b.FrameQueue
use edgevision_rv1126b.FrameQueue.{FrameQueue, push, wait_and_pop, Waited, blocked, closed, popped}
use edgevision_rv1126b.FrameQueue.Laws.{push_refines}
use edgevision_rv1126b.Overlay.{DetectionOverlay}
use edgevision_rv1126b.Metrics.{
  zeros, MetricsCollector, ProcSample, record_capture, record_encode, record_ai, record_bytes_sent,
  record_event_written, record_encode_queue_drop, record_ai_queue_drop, keep_sample,
}
use edgevision_rv1126b.Pipeline.{
  Config, CapturePc, EncodePc, AiPc, MetricsPc, MainPc, System, Action, start, infers,
}
use edgevision_rv1126b.Pipeline.Threads.{
  Turn, waits, faults, goes, capture_acts, encode_acts, ai_acts, metrics_acts, main_acts, act,
}
use edgevision_rv1126b.Pipeline.Invariant.{IsSound, Sound, act-Sound, start-IsSound}
use edgevision_rv1126b.Pipeline.Runs.{run}

-- The calls of the counters that the capture thread still owes for what it has done.
abbrev pub owed_drop : CapturePc → ℕ
owed_drop (CapturePc.dropped _ _) = 1
owed_drop _ = 0

abbrev pub owed_ai_drop : CapturePc → ℕ
owed_ai_drop (CapturePc.dropped_ai _) = 1
owed_ai_drop _ = 0

abbrev pub owed_capture : CapturePc → ℕ
owed_capture (CapturePc.pushing _ _) = 1
owed_capture (CapturePc.dropped _ _) = 1
owed_capture (CapturePc.offering _ _) = 1
owed_capture (CapturePc.dropped_ai _) = 1
owed_capture (CapturePc.counting _) = 1
owed_capture _ = 0

abbrev pub sequence_of : CapturePc → ℕ
sequence_of (CapturePc.at_loop n) = n
sequence_of (CapturePc.capturing n) = n
sequence_of (CapturePc.pushing _ n) = n
sequence_of (CapturePc.dropped _ n) = n
sequence_of (CapturePc.offering _ n) = n
sequence_of (CapturePc.dropped_ai n) = n
sequence_of (CapturePc.counting n) = n
sequence_of (CapturePc.finished n) = n

abbrev pub IsChosen : Config → CapturedFrame → Type 0
IsChosen config frame = infers config frame ≡ true

pub record Accounts {F : Type 0} (config : Config) (s : System F) : Type 0 where
  pub drops :
      s.encode_queue.dropped_frames
      ≡ (s.metrics_collector.counters.encode_queue_drops + owed_drop s.capture) % 2 ^ 64
  pub ai_drops :
      s.ai_queue.dropped_frames
      ≡ (s.metrics_collector.counters.ai_queue_drops + owed_ai_drop s.capture) % 2 ^ 64
  pub captured :
      sequence_of s.capture
      ≡ (s.metrics_collector.counters.captured_frames + owed_capture s.capture) % 2 ^ 64
  pub chosen : All (IsChosen config) s.ai_queue.queue

abbrev pub Accounted : {F : Type 0} → Config → Turn F → Type 0
Accounted config waits = Unit
Accounted config faults = Unit
Accounted config (goes next) = Accounts config next

module _ {F : Type 0} (config : Config) (s : System F) (v : IsSound s) (a : Accounts config s) where
  pub capture_acts-Accounted :
      (pc : CapturePc) (shot : Option (List ℕ)) (now : ℕ)
      → s.capture ≡ pc
      → Accounted config (capture_acts config pc shot now s)
  unfolding capture_acts record_capture record_encode_queue_drop record_ai_queue_drop
  capture_acts-Accounted (CapturePc.at_loop n) shot now e = ground arith
  capture_acts-Accounted (CapturePc.capturing n) none now e = ground arith
  capture_acts-Accounted (CapturePc.capturing n) (some scratch) now e = ground arith
  capture_acts-Accounted (CapturePc.pushing frame n) shot now e =
      let (after, full, p) = push_refines s.encode_queue frame v.encode_valid in
      ground (arith, p, p.returns, p.count, p.flag)
  capture_acts-Accounted (CapturePc.dropped frame n) shot now e = ground arith
  capture_acts-Accounted (CapturePc.offering frame n) shot now e =
      elim (Bool-cases (infers config frame)) [
        | inr skipped ↦ ground arith
        | inl chosen ↦
            let (after, full, p) = push_refines s.ai_queue frame v.ai_valid in
            let kept : All (IsChosen config) after.queue =
              subst (λ q. All (IsChosen config) q) (sym p.contents)
                (NewestQueue.All-enqueue (IsChosen config) s.ai_queue.capacity s.ai_queue.queue
                  frame a.chosen chosen) in
            ground (arith, p, p.returns, p.count, p.flag, kept)
      ]
  capture_acts-Accounted (CapturePc.dropped_ai n) shot now e = ground arith
  capture_acts-Accounted (CapturePc.counting n) shot now e = ground arith
  capture_acts-Accounted (CapturePc.finished n) shot now e = tt

  pub metrics_acts-Accounted :
      (pc : MetricsPc) (now : ℕ) (proc : ProcSample)
      → Accounted config (metrics_acts config pc now proc s)
  unfolding metrics_acts keep_sample
  metrics_acts-Accounted MetricsPc.at_loop now proc = ground arith
  metrics_acts-Accounted MetricsPc.finished now proc = tt
  metrics_acts-Accounted _ now proc = ground arith

  pub main_acts-Accounted : (pc : MainPc) → Accounted config (main_acts pc s)
  unfolding main_acts FrameQueue.stop
  main_acts-Accounted MainPc.watching = ground arith
  main_acts-Accounted MainPc.finished = tt
  main_acts-Accounted _ = ground arith

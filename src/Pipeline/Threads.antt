-- ===== src/Pipeline/Threads.antt =====
-- The loops of the threads of camera/src/main.cpp, an access at a time.
use edgevision_rv1126b.Prelude.{
  ℕ, ◌+◌, ◌*◌, ◌%◌, ◌^◌, Bool, true, false, ◌&&◌, List, [], ◌∷◌, ◌++◌, Option, none, some, ltb, leb,
  if◌then◌else◌, length, is_empty,
}
use edgevision_rv1126b.Prelude.Int.{ℤ, pos, negsuc, ltb_ℤ}
use edgevision_rv1126b.Ai.{AiResult}
use edgevision_rv1126b.FrameQueue
use edgevision_rv1126b.FrameQueue.{push, wait_and_pop, blocked, closed, popped}
use edgevision_rv1126b.Overlay.{apply, update}
use edgevision_rv1126b.Metrics.{
  Counters, MetricsCollector, ProcSample, record_capture, record_encode, record_ai,
  record_bytes_sent, record_event_written, record_encode_queue_drop, record_ai_queue_drop,
  keep_sample,
}
use edgevision_rv1126b.Pipeline.{
  Config, CapturePc, EncodePc, AiPc, MetricsPc, MainPc, System, Action, infers,
}

-- A thread that waits, undefined behaviour, or the next state.
pub data Turn (F : Type 0) : Type 0 where
  waits : Turn F
  faults : Turn F
  goes : (next : System F) → Turn F

-- A call of the counters.
abbrev pub recorded : (Counters → Counters) → MetricsCollector → MetricsCollector
recorded f m = record m { counters = f m.counters }

abbrev pub is_finished : CapturePc → Bool
is_finished (CapturePc.finished n) = true
is_finished _ = false

abbrev pub encode_finished : EncodePc → Bool
encode_finished EncodePc.finished = true
encode_finished _ = false

abbrev pub ai_finished : {F : Type 0} → AiPc F → Bool
ai_finished AiPc.finished = true
ai_finished _ = false

abbrev pub metrics_finished : MetricsPc → Bool
metrics_finished MetricsPc.finished = true
metrics_finished _ = false

-- `config.metrics_interval_sec * 10` in `int`; `none` is an overflow, which is undefined behaviour.
unfoldable pub tenths : ℤ → Option ℤ
tenths (pos n) = if ltb (n * 10) (2 ^ 31) then some (pos (n * 10)) else none
tenths (negsuc n) = if leb (n * 10 + 10) (2 ^ 31) then some (negsuc (n * 10 + 9)) else none

module _ {F : Type 0} (config : Config) where
  -- The capture thread.
  unfoldable pub capture_acts : CapturePc → Option (List ℕ) → ℕ → System F → Turn F
  capture_acts (CapturePc.at_loop n) shot now s =
      goes
        (record s { capture = if s.running then CapturePc.capturing n else CapturePc.finished n })
  capture_acts (CapturePc.capturing n) shot now s = elim shot [
    | none ↦ goes (record s { capture = CapturePc.at_loop n })
    | some scratch ↦ goes (record s {
      capture =
          CapturePc.pushing
            (record {
              sequence = n;
              capture_time_us = now;
              width = config.width;
              height = config.height;
              nv12 = scratch;
            })
            ((n + 1) % 2 ^ 64);
    })
  ]
  capture_acts (CapturePc.pushing frame n) shot now s = elim (push s.encode_queue frame) [
    | none ↦ faults
    | some (queue, full) ↦ goes (record s {
      encode_queue = queue;
      capture = if full then CapturePc.dropped frame n else CapturePc.offering frame n;
    })
  ]
  capture_acts (CapturePc.dropped frame n) shot now s = goes (record s {
    metrics_collector = recorded record_encode_queue_drop s.metrics_collector;
    capture = CapturePc.offering frame n;
  })
  capture_acts (CapturePc.offering frame n) shot now s =
      if infers config frame
      then elim (push s.ai_queue frame) [
        | none ↦ faults
        | some (queue, full) ↦ goes (record s {
          ai_queue = queue;
          capture = if full then CapturePc.dropped_ai n else CapturePc.counting n;
        })
      ]
      else goes (record s { capture = CapturePc.counting n })
  capture_acts (CapturePc.dropped_ai n) shot now s = goes (record s {
    metrics_collector = recorded record_ai_queue_drop s.metrics_collector;
    capture = CapturePc.counting n;
  })
  capture_acts (CapturePc.counting n) shot now s = goes (record s {
    metrics_collector = recorded record_capture s.metrics_collector;
    capture = CapturePc.at_loop n;
  })
  capture_acts (CapturePc.finished n) shot now s = waits

  -- The metrics thread. A round of the inner loop sleeps for 100 ms.
  unfoldable pub metrics_acts : MetricsPc → ℕ → ProcSample → System F → Turn F
  unfolding tenths
  metrics_acts MetricsPc.at_loop now proc s =
      goes
        (record s { metrics = if s.running then MetricsPc.sleeping 0 else MetricsPc.last_sample })
  metrics_acts (MetricsPc.sleeping i) now proc s = elim (tenths config.metrics_interval_sec) [
    | none ↦ faults
    | some rounds ↦ goes (record s {
      metrics =
          if ltb_ℤ (pos i) rounds && s.running
          then MetricsPc.sleeping (i + 1)
          else MetricsPc.waking;
    })
  ]
  metrics_acts MetricsPc.waking now proc s =
      goes (record s { metrics = if s.running then MetricsPc.sampling else MetricsPc.last_sample })
  metrics_acts MetricsPc.sampling now proc s = goes (record s {
    metrics_collector = keep_sample s.metrics_collector now s.metrics_collector.counters proc;
    metrics = MetricsPc.at_loop;
  })
  metrics_acts MetricsPc.last_sample now proc s = goes (record s {
    metrics_collector = keep_sample s.metrics_collector now s.metrics_collector.counters proc;
    metrics = MetricsPc.finished;
  })
  metrics_acts MetricsPc.finished now proc s = waits

module _ {F : Type 0} (rounded : F → ℤ) where
  -- The encode thread. `rounded` is the rounding of the overlay.
  unfoldable pub encode_acts :
      EncodePc → Bool → Option (List ℕ) → ℕ → Option Bool → System F → Turn F
  encode_acts EncodePc.connecting connects packet us sends s =
      if connects
      then goes (record s { encode = EncodePc.at_loop })
      else goes (record s { running = false; encode = EncodePc.stopping_encode })
  encode_acts EncodePc.stopping_encode connects packet us sends s =
      goes
        (record s { encode_queue = FrameQueue.stop s.encode_queue; encode = EncodePc.stopping_ai })
  encode_acts EncodePc.stopping_ai connects packet us sends s =
      goes (record s { ai_queue = FrameQueue.stop s.ai_queue; encode = EncodePc.finished })
  encode_acts EncodePc.at_loop connects packet us sends s =
      goes (record s { encode = if s.running then EncodePc.waiting else EncodePc.closing })
  encode_acts EncodePc.waiting connects packet us sends s = elim (wait_and_pop s.encode_queue) [
    | blocked ↦ waits
    | closed ↦ goes (record s { encode = EncodePc.closing })
    | popped frame queue ↦ goes (record s { encode_queue = queue; encode = EncodePc.drawing frame })
  ]
  encode_acts (EncodePc.drawing frame) connects packet us sends s =
      elim (apply rounded s.overlay frame) [
        | none ↦ faults
        | some drawn ↦ goes (record s { encode = EncodePc.encoding drawn })
      ]
  encode_acts (EncodePc.encoding frame) connects packet us sends s = elim packet [
    | none ↦ goes (record s { encode = EncodePc.at_loop })
    | some h264_packet ↦ goes (record s { encode = EncodePc.recording h264_packet })
  ]
  encode_acts (EncodePc.recording h264_packet) connects packet us sends s = goes (record s {
    metrics_collector = recorded (record_encode us) s.metrics_collector;
    encode = EncodePc.sending h264_packet;
  })
  encode_acts (EncodePc.sending h264_packet) connects packet us sends s = elim sends [
    | none ↦ waits
    | some true ↦ goes (record s {
      packets = s.packets ++ h264_packet ∷ [];
      encode = EncodePc.counting h264_packet;
    })
    | some false ↦ goes (record s { running = false; encode = EncodePc.closing })
  ]
  encode_acts (EncodePc.counting h264_packet) connects packet us sends s = goes (record s {
    metrics_collector = recorded (record_bytes_sent (length h264_packet)) s.metrics_collector;
    encode = EncodePc.at_loop;
  })
  encode_acts EncodePc.closing connects packet us sends s =
      goes (record s { encode = EncodePc.finished })
  encode_acts EncodePc.finished connects packet us sends s = waits

-- The AI thread.
unfoldable pub ai_acts : {F : Type 0} → AiPc F → AiResult F → ℕ → System F → Turn F
ai_acts AiPc.at_loop result us s =
    goes (record s { ai = if s.running then AiPc.waiting else AiPc.finished })
ai_acts AiPc.waiting result us s = elim (wait_and_pop s.ai_queue) [
  | blocked ↦ waits
  | closed ↦ goes (record s { ai = AiPc.finished })
  | popped frame queue ↦ goes (record s { ai_queue = queue; ai = AiPc.inferring frame })
]
ai_acts (AiPc.inferring frame) result us s =
    goes (record s { ai = if result.valid then AiPc.updating result else AiPc.at_loop })
ai_acts (AiPc.updating found) result us s =
    goes (record s { overlay = update s.overlay found; ai = AiPc.recording found })
ai_acts (AiPc.recording found) result us s = goes (record s {
  metrics_collector = recorded (record_ai us) s.metrics_collector;
  ai = if is_empty found.detections then AiPc.at_loop else AiPc.logging found;
})
ai_acts (AiPc.logging found) result us s =
    goes (record s { events = s.events ++ found ∷ []; ai = AiPc.counting })
ai_acts AiPc.counting result us s = goes (record s {
  metrics_collector = recorded record_event_written s.metrics_collector;
  ai = AiPc.at_loop;
})
ai_acts AiPc.finished result us s = waits

-- A thread that can be joined.
abbrev pub join : {F : Type 0} → Bool → System F → MainPc → Turn F
join true s next = goes (record s { main = next })
join false s next = waits

-- The main thread, from its loop on.
unfoldable pub main_acts : {F : Type 0} → MainPc → System F → Turn F
main_acts MainPc.watching s =
    goes (record s { main = if s.running then MainPc.watching else MainPc.stopping_encode })
main_acts MainPc.stopping_encode s =
    goes (record s { encode_queue = FrameQueue.stop s.encode_queue; main = MainPc.stopping_ai })
main_acts MainPc.stopping_ai s =
    goes (record s { ai_queue = FrameQueue.stop s.ai_queue; main = MainPc.joining_capture })
main_acts MainPc.joining_capture s = join (is_finished s.capture) s MainPc.joining_encode
main_acts MainPc.joining_encode s = join (encode_finished s.encode) s MainPc.joining_ai
main_acts MainPc.joining_ai s = join (ai_finished s.ai) s MainPc.joining_metrics
main_acts MainPc.joining_metrics s = join (metrics_finished s.metrics) s MainPc.finished
main_acts MainPc.finished s = waits

-- One action.
unfoldable pub act : {F : Type 0} → (F → ℤ) → Config → System F → Action F → Turn F
act rounded config s (Action.capture shot now) = capture_acts config s.capture shot now s
act rounded config s (Action.encode connects packet us sends) =
    encode_acts rounded s.encode connects packet us sends s
act rounded config s (Action.ai result us) = ai_acts s.ai result us s
act rounded config s (Action.metrics now proc) = metrics_acts config s.metrics now proc s
act rounded config s Action.main = main_acts s.main s
act rounded config s Action.signal = goes (record s { running = false })

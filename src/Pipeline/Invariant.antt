-- ===== src/Pipeline/Invariant.antt =====
-- What holds between any two accesses of the threads: the queues stay sound, and `main` passes its
-- stops and joins in their order.
use edgevision_rv1126b.Prelude.{
  ℕ, ◌≤◌, ◌<◌, ◌≡◌, ◌≢◌, refl, Bool, true, false, List, Option, none, some, arith, ◌+◌, ◌*◌, ◌^◌,
  lt→ltb, le→leb,
}
use edgevision_rv1126b.Prelude.Int.{ℤ, pos, negsuc}
use edgevision_rv1126b.Frame.{CapturedFrame}
use edgevision_rv1126b.Ai.{AiResult}
use edgevision_rv1126b.FrameQueue
use edgevision_rv1126b.FrameQueue.{FrameQueue, push, wait_and_pop, Waited, blocked, closed, popped}
use edgevision_rv1126b.FrameQueue.Laws.{IsValid, push_refines, create-IsValid}
use edgevision_rv1126b.Overlay.{DetectionOverlay, apply}
use edgevision_rv1126b.Overlay.Application.{apply-Applies}
use edgevision_rv1126b.Metrics.{MetricsCollector, ProcSample}
use edgevision_rv1126b.Pipeline.{
  Config, CapturePc, EncodePc, AiPc, MetricsPc, MainPc, System, Action, start,
}
use edgevision_rv1126b.Pipeline.Threads.{
  Turn, waits, faults, goes, is_finished, encode_finished, ai_finished, metrics_finished,
  capture_acts, encode_acts, ai_acts, metrics_acts, main_acts, act, tenths,
}

-- How far `main` has come: 1 with `encode_queue` stopped, 2 with `ai_queue` stopped too, and one more
-- for each thread that is joined.
abbrev pub stage : MainPc → ℕ
stage MainPc.watching = 0
stage MainPc.stopping_encode = 1
stage MainPc.stopping_ai = 2
stage MainPc.joining_capture = 3
stage MainPc.joining_encode = 4
stage MainPc.joining_ai = 5
stage MainPc.joining_metrics = 6
stage MainPc.finished = 7

pub record IsSound {F : Type 0} (s : System F) : Type 0 where
  pub encode_valid : IsValid s.encode_queue
  pub ai_valid : IsValid s.ai_queue
  pub left : 1 ≤ stage s.main → s.running ≡ false
  pub encode_stopped : 2 ≤ stage s.main → s.encode_queue.stopped ≡ true
  pub ai_stopped : 3 ≤ stage s.main → s.ai_queue.stopped ≡ true
  pub capture_joined : 4 ≤ stage s.main → is_finished s.capture ≡ true
  pub encode_joined : 5 ≤ stage s.main → encode_finished s.encode ≡ true
  pub ai_joined : 6 ≤ stage s.main → ai_finished s.ai ≡ true
  pub metrics_joined : 7 ≤ stage s.main → metrics_finished s.metrics ≡ true

-- A turn that is no undefined behaviour and leaves a sound state.
abbrev pub Sound : {F : Type 0} → Turn F → Type 0
Sound waits = Unit
Sound faults = ⊥
Sound (goes next) = IsSound next

-- A turn that leaves a sound state if it leaves one.
abbrev pub Kept : {F : Type 0} → Turn F → Type 0
Kept waits = Unit
Kept faults = Unit
Kept (goes next) = IsSound next

Sound-Kept : {F : Type 0} (turn : Turn F) → Sound turn → Kept turn
Sound-Kept waits sound = tt
Sound-Kept faults sound = tt
Sound-Kept (goes next) sound = sound

-- Taking a frame out keeps a queue sound.
pub wait_and_pop-IsValid :
    (q : FrameQueue) {frame : CapturedFrame} {rest : FrameQueue}
    → IsValid q
    → wait_and_pop q ≡ popped frame rest
    → IsValid rest × (rest.stopped ≡ q.stopped)
unfolding wait_and_pop
wait_and_pop-IsValid q v e = ground arith

-- `z * 10` fits into an `int`.
abbrev pub Tenths : ℤ → Type 0
Tenths (pos n) = n * 10 < 2 ^ 31
Tenths (negsuc n) = n * 10 + 10 ≤ 2 ^ 31

pub tenths-some : (z : ℤ) → Tenths z → (rounds : ℤ) × (tenths z ≡ some rounds)
unfolding tenths
tenths-some (pos n) h = (pos (n * 10), rw (lt→ltb (n * 10) (2 ^ 31) h) refl)
tenths-some (negsuc n) h = (negsuc (n * 10 + 9), rw (le→leb (n * 10 + 10) (2 ^ 31) h) refl)

module _ {F : Type 0} (config : Config) (s : System F) (v : IsSound s) where
  capture_acts-Sound :
      (pc : CapturePc) (shot : Option (List ℕ)) (now : ℕ)
      → s.capture ≡ pc
      → Sound (capture_acts config pc shot now s)
  unfolding capture_acts
  capture_acts-Sound (CapturePc.at_loop n) shot now e = ground arith
  capture_acts-Sound (CapturePc.capturing n) none now e = ground arith
  capture_acts-Sound (CapturePc.capturing n) (some scratch) now e = ground arith
  capture_acts-Sound (CapturePc.pushing frame n) shot now e =
      let (after, full, p) = push_refines s.encode_queue frame v.encode_valid in
      ground (arith, p, p.returns)
  capture_acts-Sound (CapturePc.dropped frame n) shot now e = ground arith
  capture_acts-Sound (CapturePc.offering frame n) shot now e =
      let (after, full, p) = push_refines s.ai_queue frame v.ai_valid in
      ground (arith, p, p.returns)
  capture_acts-Sound (CapturePc.dropped_ai n) shot now e = ground arith
  capture_acts-Sound (CapturePc.counting n) shot now e = ground arith
  capture_acts-Sound (CapturePc.finished n) shot now e = tt

  metrics_acts-Sound :
      (pc : MetricsPc) (now : ℕ) (proc : ProcSample)
      → Tenths config.metrics_interval_sec
      → s.metrics ≡ pc
      → Sound (metrics_acts config pc now proc s)
  unfolding metrics_acts
  metrics_acts-Sound MetricsPc.at_loop now proc fits e = ground arith
  metrics_acts-Sound (MetricsPc.sleeping i) now proc fits e =
      let (rounds, h) = tenths-some config.metrics_interval_sec fits in ground (arith, h)
  metrics_acts-Sound MetricsPc.finished now proc fits e = tt
  metrics_acts-Sound _ now proc fits e = ground arith

  metrics_acts-Kept :
      (pc : MetricsPc) (now : ℕ) (proc : ProcSample)
      → s.metrics ≡ pc
      → Kept (metrics_acts config pc now proc s)
  unfolding metrics_acts
  metrics_acts-Kept MetricsPc.at_loop now proc e = ground arith
  metrics_acts-Kept MetricsPc.finished now proc e = tt
  metrics_acts-Kept _ now proc e = ground arith

pub apply-ne-none :
    {F : Type 0} (rounded : F → ℤ) (overlay : DetectionOverlay F) (frame : CapturedFrame)
    → apply rounded overlay frame ≢ none
apply-ne-none rounded overlay frame h =
    let (after, e, applied) = apply-Applies rounded overlay frame in cc

module _ {F : Type 0} (s : System F) (v : IsSound s) where
  ai_acts-Sound :
      (pc : AiPc F) (result : AiResult F) (us : ℕ) → s.ai ≡ pc → Sound (ai_acts pc result us s)
  unfolding ai_acts
  ai_acts-Sound AiPc.waiting result us e = waited (wait_and_pop s.ai_queue) refl
    where
      waited :
          (w : Waited)
          → wait_and_pop s.ai_queue ≡ w
          → Sound (elim w [
            | blocked ↦ waits
            | closed ↦ goes (record s { ai = AiPc.finished })
            | popped frame queue ↦ goes (record s { ai_queue = queue; ai = AiPc.inferring frame })
          ])
      waited blocked g = tt
      waited closed g = ground arith
      waited (popped frame queue) g =
          let (valid, same) = wait_and_pop-IsValid s.ai_queue v.ai_valid g in ground arith
  ai_acts-Sound AiPc.finished result us e = tt
  ai_acts-Sound _ result us e = ground arith

  main_acts-Sound : (pc : MainPc) → s.main ≡ pc → Sound (main_acts pc s)
  unfolding main_acts FrameQueue.stop
  main_acts-Sound MainPc.watching e = ground arith
  main_acts-Sound MainPc.finished e = tt
  main_acts-Sound _ e = ground arith

  module _ (rounded : F → ℤ) where
    encode_acts-Sound :
        (pc : EncodePc) (connects : Bool) (packet : Option (List ℕ)) (us : ℕ) (sends : Option Bool)
        → s.encode ≡ pc
        → Sound (encode_acts rounded pc connects packet us sends s)
    unfolding encode_acts FrameQueue.stop
    encode_acts-Sound EncodePc.waiting connects packet us sends e =
        waited (wait_and_pop s.encode_queue) refl
      where
        waited :
            (w : Waited)
            → wait_and_pop s.encode_queue ≡ w
            → Sound (elim w [
              | blocked ↦ waits
              | closed ↦ goes (record s { encode = EncodePc.closing })
              | popped frame queue ↦
                  goes (record s { encode_queue = queue; encode = EncodePc.drawing frame })
            ])
        waited blocked g = tt
        waited closed g = ground arith
        waited (popped frame queue) g =
            let (valid, same) = wait_and_pop-IsValid s.encode_queue v.encode_valid g in ground arith
    encode_acts-Sound (EncodePc.drawing frame) connects packet us sends e =
        drew (apply rounded s.overlay frame) (apply-ne-none rounded s.overlay frame)
      where
        drew :
            (drawn : Option CapturedFrame)
            → drawn ≢ none
            → Sound (elim drawn [
              | none ↦ faults
              | some after ↦ goes (record s { encode = EncodePc.encoding after })
            ])
        drew none g = g refl
        drew (some after) g = ground arith
    encode_acts-Sound EncodePc.finished connects packet us sends e = tt
    encode_acts-Sound _ connects packet us sends e = ground arith

pub start-IsSound :
    {F : Type 0} (config : Config) (overlay : DetectionOverlay F) (collector : MetricsCollector)
    → 0 < config.encode_queue_capacity
    → 0 < config.ai_queue_capacity
    → IsSound (start config overlay collector)
unfolding start
start-IsSound config overlay collector he ha = record {
  encode_valid = create-IsValid config.encode_queue_capacity he;
  ai_valid = create-IsValid config.ai_queue_capacity ha;
  left = λ h. absurd (omega arith);
  encode_stopped = λ h. absurd (omega arith);
  ai_stopped = λ h. absurd (omega arith);
  capture_joined = λ h. absurd (omega arith);
  encode_joined = λ h. absurd (omega arith);
  ai_joined = λ h. absurd (omega arith);
  metrics_joined = λ h. absurd (omega arith);
}

pub act-Kept :
    {F : Type 0} (rounded : F → ℤ) (config : Config) (s : System F) (action : Action F)
    → IsSound s
    → Kept (act rounded config s action)
unfolding act
act-Kept rounded config s (Action.capture shot now) v =
    Sound-Kept _ (capture_acts-Sound config s v s.capture shot now refl)
act-Kept rounded config s (Action.encode connects packet us sends) v =
    Sound-Kept _ (encode_acts-Sound s v rounded s.encode connects packet us sends refl)
act-Kept rounded config s (Action.ai result us) v =
    Sound-Kept _ (ai_acts-Sound s v s.ai result us refl)
act-Kept rounded config s (Action.metrics now proc) v =
    metrics_acts-Kept config s v s.metrics now proc refl
act-Kept rounded config s Action.main v = Sound-Kept _ (main_acts-Sound s v s.main refl)
act-Kept rounded config s Action.signal v = ground arith

module _ {F : Type 0} (rounded : F → ℤ) (config : Config)
    (fits : Tenths config.metrics_interval_sec) where
  pub act-Sound :
      (s : System F) (action : Action F) → IsSound s → Sound (act rounded config s action)
  unfolding act
  act-Sound s (Action.capture shot now) v = capture_acts-Sound config s v s.capture shot now refl
  act-Sound s (Action.encode connects packet us sends) v =
      encode_acts-Sound s v rounded s.encode connects packet us sends refl
  act-Sound s (Action.ai result us) v = ai_acts-Sound s v s.ai result us refl
  act-Sound s (Action.metrics now proc) v =
      metrics_acts-Sound config s v s.metrics now proc fits refl
  act-Sound s Action.main v = main_acts-Sound s v s.main refl
  act-Sound s Action.signal v = ground arith

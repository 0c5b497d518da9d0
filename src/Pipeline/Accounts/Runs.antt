-- ===== src/Pipeline/Accounts/Runs.antt =====
-- The counters of camera/src/main.cpp agree with its queues after every run of its threads.
use edgevision_rv1126b.Prelude.{
  ℕ, ◌<◌, ◌≡◌, refl, ap, subst, Bool, List, [], ◌∷◌, Option, arith, All,
}
use edgevision_rv1126b.Prelude.Int.{ℤ}
use edgevision_rv1126b.Frame.{CapturedFrame}
use edgevision_rv1126b.Ai.{AiResult}
use edgevision_rv1126b.FrameQueue
use edgevision_rv1126b.FrameQueue.{FrameQueue, push, wait_and_pop, Waited, blocked, closed, popped}
use edgevision_rv1126b.Overlay.{DetectionOverlay}
use edgevision_rv1126b.Metrics.{
  zeros, MetricsCollector, record_encode, record_ai, record_bytes_sent, record_event_written,
}
use edgevision_rv1126b.Pipeline.{Config, EncodePc, AiPc, System, Action, start}
use edgevision_rv1126b.Pipeline.Threads.{Turn, waits, faults, goes, encode_acts, ai_acts, act}
use edgevision_rv1126b.Pipeline.Invariant.{IsSound, Kept, act-Kept, start-IsSound}
use edgevision_rv1126b.Pipeline.Runs.{run}
use edgevision_rv1126b.Pipeline.Accounts.{
  Accounts, Accounted, IsChosen, capture_acts-Accounted, metrics_acts-Accounted,
  main_acts-Accounted,
}

-- Taking a frame out leaves the others and the count.
wait_and_pop_rest :
    (P : CapturedFrame → Type 0) (q : FrameQueue) (frame : CapturedFrame) (rest : FrameQueue)
    → All P q.queue
    → wait_and_pop q ≡ popped frame rest
    → All P rest.queue × (rest.dropped_frames ≡ q.dropped_frames)
unfolding wait_and_pop
wait_and_pop_rest P q frame rest h e = by_queue q.queue refl h
  where
    by_queue :
        (frames : List CapturedFrame)
        → q.queue ≡ frames
        → All P frames
        → All P rest.queue × (rest.dropped_frames ≡ q.dropped_frames)
    by_queue [] f g = absurd (ground arith)
    by_queue (x ∷ xs) f (p, g) =
        let same : rest ≡ record q { queue = xs } = ground arith in
        (
          rw (ap (λ (r : FrameQueue). r.queue) same) g,
          ap (λ (r : FrameQueue). r.dropped_frames) same,
        )

All-Unit : (frames : List CapturedFrame) → All (λ frame. Unit {0}) frames
All-Unit [] = tt
All-Unit (frame ∷ frames) = (tt, All-Unit frames)

module _ {F : Type 0} (config : Config) (s : System F) (a : Accounts config s) where
  ai_acts-Accounted :
      (pc : AiPc F) (result : AiResult F) (us : ℕ) → Accounted config (ai_acts pc result us s)
  unfolding ai_acts record_ai record_event_written
  ai_acts-Accounted AiPc.waiting result us = waited (wait_and_pop s.ai_queue) refl
    where
      waited :
          (w : Waited)
          → wait_and_pop s.ai_queue ≡ w
          → Accounted config (elim w [
            | blocked ↦ waits
            | closed ↦ goes (record s { ai = AiPc.finished })
            | popped frame queue ↦ goes (record s { ai_queue = queue; ai = AiPc.inferring frame })
          ])
      waited blocked g = tt
      waited closed g = ground arith
      waited (popped frame queue) g =
          let (rest, same) =
            wait_and_pop_rest (IsChosen config) s.ai_queue frame queue a.chosen g in
          ground (arith, rest)
  ai_acts-Accounted AiPc.finished result us = tt
  ai_acts-Accounted _ result us = ground arith

  encode_acts-Accounted :
      (rounded : F → ℤ) (pc : EncodePc) (connects : Bool) (packet : Option (List ℕ)) (us : ℕ)
      (sends : Option Bool)
      → Accounted config (encode_acts rounded pc connects packet us sends s)
  unfolding encode_acts record_encode record_bytes_sent FrameQueue.stop
  encode_acts-Accounted rounded EncodePc.waiting connects packet us sends =
      waited (wait_and_pop s.encode_queue) refl
    where
      waited :
          (w : Waited)
          → wait_and_pop s.encode_queue ≡ w
          → Accounted config (elim w [
            | blocked ↦ waits
            | closed ↦ goes (record s { encode = EncodePc.closing })
            | popped frame queue ↦
                goes (record s { encode_queue = queue; encode = EncodePc.drawing frame })
          ])
      waited blocked g = tt
      waited closed g = ground arith
      waited (popped frame queue) g =
          let (rest, same) =
            wait_and_pop_rest (λ x. Unit {0}) s.encode_queue frame queue
              (All-Unit s.encode_queue.queue) g in
          ground arith
  encode_acts-Accounted rounded EncodePc.finished connects packet us sends = tt
  encode_acts-Accounted rounded _ connects packet us sends = ground arith

start-Accounts :
    {F : Type 0} (config : Config) (overlay : DetectionOverlay F) (collector : MetricsCollector)
    → collector.counters ≡ zeros
    → Accounts config (start config overlay collector)
unfolding start FrameQueue.create
start-Accounts config overlay collector fresh = record {
  drops = ground arith;
  ai_drops = ground arith;
  captured = ground arith;
  chosen = tt;
}

module _ {F : Type 0} (rounded : F → ℤ) (config : Config) where
  act-Accounted :
      (s : System F) (action : Action F)
      → IsSound s
      → Accounts config s
      → Accounted config (act rounded config s action)
  unfolding act
  act-Accounted s (Action.capture shot now) v a =
      capture_acts-Accounted config s v a s.capture shot now refl
  act-Accounted s (Action.encode connects packet us sends) v a =
      encode_acts-Accounted config s a rounded s.encode connects packet us sends
  act-Accounted s (Action.ai result us) v a = ai_acts-Accounted config s a s.ai result us
  act-Accounted s (Action.metrics now proc) v a =
      metrics_acts-Accounted config s v a s.metrics now proc
  act-Accounted s Action.main v a = main_acts-Accounted config s v a s.main
  act-Accounted s Action.signal v a = ground arith

  run-Accounted :
      (actions : List (Action F)) (s : System F)
      → IsSound s
      → Accounts config s
      → Accounted config (run rounded config s actions)
  unfolding run
  run-Accounted [] s v a = a
  run-Accounted (action ∷ actions) s v a =
      after (act rounded config s action) (act-Kept rounded config s action v)
        (act-Accounted s action v a) (λ t w b. run-Accounted actions t w b)
    where
      after :
          (turn : Turn F)
          → Kept turn
          → Accounted config turn
          → ((t : System F)
              → IsSound t
              → Accounts config t
              → Accounted config (run rounded config t actions))
          → Accounted config (elim turn [
            | waits ↦ run rounded config s actions
            | faults ↦ faults
            | goes next ↦ run rounded config next actions
          ])
      after waits sound accounted rest = rest s v a
      after faults sound accounted rest = tt
      after (goes next) sound accounted rest = rest next sound accounted

  -- However the threads are scheduled and whatever they are answered: the drops that the metrics report
  -- are those that the two queues have made, and the frames that they report are the sequence number of
  -- the next frame, all modulo 2^64, up to the one call that the capture thread may still owe; and every
  -- frame in the queue of the detector is one that the configuration chooses for it.
  pub run-Accounts :
      (overlay : DetectionOverlay F) (collector : MetricsCollector) (actions : List (Action F))
      (s : System F)
      → 0 < config.encode_queue_capacity
      → 0 < config.ai_queue_capacity
      → collector.counters ≡ zeros
      → run rounded config (start config overlay collector) actions ≡ goes s
      → Accounts config s
  run-Accounts overlay collector actions s he ha fresh reached = subst (Accounted config) reached (
      run-Accounted actions (start config overlay collector)
        (start-IsSound config overlay collector he ha)
        (start-Accounts config overlay collector fresh))

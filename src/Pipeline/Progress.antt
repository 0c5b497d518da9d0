-- ===== src/Pipeline/Progress.antt =====
-- Which threads can go on, whatever they are answered: all but those that wait for an open queue, and the
-- encode thread in a call of `sendPacket` that does not return.
use edgevision_rv1126b.Prelude.{
  ℕ, ◌⊎◌, inl, inr, Bool, List, Option, some, ◌≡◌, ◌≢◌, refl, true, false, none, arith,
}
use edgevision_rv1126b.Prelude.Int.{ℤ}
use edgevision_rv1126b.Ai.{AiResult}
use edgevision_rv1126b.FrameQueue.{FrameQueue, wait_and_pop, blocked}
use edgevision_rv1126b.FrameQueue.Laws.{push_refines}
use edgevision_rv1126b.Metrics.{ProcSample}
use edgevision_rv1126b.Pipeline.{Config, CapturePc, EncodePc, AiPc, MetricsPc, System}
use edgevision_rv1126b.Pipeline.Threads.{
  Turn, waits, faults, goes, is_finished, encode_finished, ai_finished, metrics_finished,
  capture_acts, encode_acts, ai_acts, metrics_acts,
}
use edgevision_rv1126b.Pipeline.Invariant.{IsSound, Tenths, tenths-some, apply-ne-none}

-- A thread that has not ended and does not wait for an open queue can go on.
abbrev pub Goes : {F : Type 0} → Turn F → Type 0
Goes {F} turn = (next : System F) × (turn ≡ goes next)

pub Goes-running : {F : Type 0} (turn : Turn F) → turn ≢ waits → turn ≢ faults → Goes turn
Goes-running waits h k = absurd (h refl)
Goes-running faults h k = absurd (k refl)
Goes-running (goes next) h k = (next, refl)

module _ {F : Type 0} (config : Config) (s : System F) where
  pub capture_acts-Goes :
      (pc : CapturePc) (shot : Option (List ℕ)) (now : ℕ)
      → IsSound s
      → is_finished pc ≡ false
      → Goes (capture_acts config pc shot now s)
  unfolding capture_acts
  capture_acts-Goes (CapturePc.capturing n) none now v e = (_, refl)
  capture_acts-Goes (CapturePc.capturing n) (some scratch) now v e = (_, refl)
  capture_acts-Goes (CapturePc.pushing frame n) shot now v e =
      let (after, full, p) = push_refines s.encode_queue frame v.encode_valid in
      Goes-running (capture_acts config (CapturePc.pushing frame n) shot now s)
        (λ h. ground (arith, p.returns)) (λ h. ground (arith, p.returns))
  capture_acts-Goes (CapturePc.offering frame n) shot now v e =
      let (after, full, p) = push_refines s.ai_queue frame v.ai_valid in
      Goes-running (capture_acts config (CapturePc.offering frame n) shot now s)
        (λ h. ground (arith, p.returns)) (λ h. ground (arith, p.returns))
  capture_acts-Goes (CapturePc.finished n) shot now v e = cc
  capture_acts-Goes (CapturePc.at_loop n) shot now v e = (_, refl)
  capture_acts-Goes (CapturePc.dropped frame n) shot now v e = (_, refl)
  capture_acts-Goes (CapturePc.dropped_ai n) shot now v e = (_, refl)
  capture_acts-Goes (CapturePc.counting n) shot now v e = (_, refl)

  pub metrics_acts-Goes :
      (pc : MetricsPc) (now : ℕ) (proc : ProcSample)
      → Tenths config.metrics_interval_sec
      → metrics_finished pc ≡ false
      → Goes (metrics_acts config pc now proc s)
  unfolding metrics_acts
  metrics_acts-Goes MetricsPc.finished now proc fits e = cc
  metrics_acts-Goes MetricsPc.at_loop now proc fits e = (_, refl)
  metrics_acts-Goes (MetricsPc.sleeping i) now proc fits e =
      let (rounds, h) = tenths-some config.metrics_interval_sec fits in
      Goes-running (metrics_acts config (MetricsPc.sleeping i) now proc s) (λ k. ground (arith, h))
        (λ k. ground (arith, h))
  metrics_acts-Goes MetricsPc.waking now proc fits e = (_, refl)
  metrics_acts-Goes MetricsPc.sampling now proc fits e = (_, refl)
  metrics_acts-Goes MetricsPc.last_sample now proc fits e = (_, refl)

-- A stopped queue lets nobody wait.
wait_and_pop-stopped : (q : FrameQueue) → q.stopped ≡ true → wait_and_pop q ≢ blocked
unfolding wait_and_pop
wait_and_pop-stopped q e h = ground arith

module _ {F : Type 0} (s : System F) where
  pub ai_acts-Goes :
      (pc : AiPc F) (result : AiResult F) (us : ℕ)
      → s.ai_queue.stopped ≡ true
      → ai_finished pc ≡ false
      → Goes (ai_acts pc result us s)
  unfolding ai_acts
  ai_acts-Goes AiPc.at_loop result us h e = (_, refl)
  ai_acts-Goes AiPc.waiting result us h e =
      let over = wait_and_pop-stopped s.ai_queue h in
      Goes-running (ai_acts AiPc.waiting result us s) (λ k. ground (arith, over))
        (λ k. ground (arith, over))
  ai_acts-Goes (AiPc.inferring frame) result us h e = (_, refl)
  ai_acts-Goes (AiPc.updating found) result us h e = (_, refl)
  ai_acts-Goes (AiPc.recording found) result us h e = (_, refl)
  ai_acts-Goes (AiPc.logging found) result us h e = (_, refl)
  ai_acts-Goes AiPc.counting result us h e = (_, refl)
  ai_acts-Goes AiPc.finished result us h e = cc

  -- The encode thread may have to wait for `sendPacket` too.
  pub encode_acts-Goes :
      (rounded : F → ℤ) (pc : EncodePc) (connects : Bool) (packet : Option (List ℕ)) (us : ℕ)
      (sends : Option Bool)
      → s.encode_queue.stopped ≡ true
      → encode_finished pc ≡ false
      → (sends ≡ none) ⊎ Goes (encode_acts rounded pc connects packet us sends s)
  unfolding encode_acts
  encode_acts-Goes rounded EncodePc.connecting true packet us sends h e = inr (_, refl)
  encode_acts-Goes rounded EncodePc.connecting false packet us sends h e = inr (_, refl)
  encode_acts-Goes rounded EncodePc.waiting connects packet us sends h e =
      let over = wait_and_pop-stopped s.encode_queue h in
      inr (
        Goes-running (encode_acts rounded EncodePc.waiting connects packet us sends s)
          (λ k. ground (arith, over)) (λ k. ground (arith, over)))
  encode_acts-Goes rounded (EncodePc.drawing frame) connects packet us sends h e =
      let drawn = apply-ne-none rounded s.overlay frame in
      inr (
        Goes-running (encode_acts rounded (EncodePc.drawing frame) connects packet us sends s)
          (λ k. ground (arith, drawn)) (λ k. ground (arith, drawn)))
  encode_acts-Goes rounded (EncodePc.encoding frame) connects none us sends h e = inr (_, refl)
  encode_acts-Goes rounded (EncodePc.encoding frame) connects (some packet) us sends h e =
      inr (_, refl)
  encode_acts-Goes rounded (EncodePc.sending p) connects packet us none h e = inl refl
  encode_acts-Goes rounded (EncodePc.sending p) connects packet us (some true) h e = inr (_, refl)
  encode_acts-Goes rounded (EncodePc.sending p) connects packet us (some false) h e = inr (_, refl)
  encode_acts-Goes rounded EncodePc.finished connects packet us sends h e = cc
  encode_acts-Goes rounded EncodePc.stopping_encode connects packet us sends h e = inr (_, refl)
  encode_acts-Goes rounded EncodePc.stopping_ai connects packet us sends h e = inr (_, refl)
  encode_acts-Goes rounded EncodePc.at_loop connects packet us sends h e = inr (_, refl)
  encode_acts-Goes rounded (EncodePc.recording p) connects packet us sends h e = inr (_, refl)
  encode_acts-Goes rounded (EncodePc.counting p) connects packet us sends h e = inr (_, refl)
  encode_acts-Goes rounded EncodePc.closing connects packet us sends h e = inr (_, refl)

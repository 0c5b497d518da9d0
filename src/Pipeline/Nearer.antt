-- ===== src/Pipeline/Nearer.antt =====
-- Once `g_running` is false, each access of a thread brings its end nearer.
use edgevision_rv1126b.Prelude.{ℕ, ◌+◌, ◌-◌, ◌<◌, ◌≡◌, Bool, false, List, Option, none, some, arith}
use edgevision_rv1126b.Prelude.Int.{ℤ}
use edgevision_rv1126b.Ai.{AiResult}
use edgevision_rv1126b.Metrics.{ProcSample}
use edgevision_rv1126b.Pipeline.{Config, CapturePc, EncodePc, AiPc, MetricsPc, MainPc, System}
use edgevision_rv1126b.Pipeline.Threads.{
  Turn, waits, faults, goes, capture_acts, encode_acts, ai_acts, metrics_acts, main_acts,
}
use edgevision_rv1126b.Pipeline.Invariant.{stage}

-- How many accesses are left to a thread at most.
abbrev pub capture_left : CapturePc → ℕ
capture_left (CapturePc.finished _) = 0
capture_left (CapturePc.at_loop _) = 1
capture_left (CapturePc.counting _) = 2
capture_left (CapturePc.dropped_ai _) = 3
capture_left (CapturePc.offering _ _) = 4
capture_left (CapturePc.dropped _ _) = 5
capture_left (CapturePc.pushing _ _) = 6
capture_left (CapturePc.capturing _) = 7

abbrev pub encode_left : EncodePc → ℕ
encode_left EncodePc.finished = 0
encode_left EncodePc.closing = 1
encode_left EncodePc.stopping_ai = 1
encode_left EncodePc.at_loop = 2
encode_left EncodePc.stopping_encode = 2
encode_left EncodePc.connecting = 3
encode_left (EncodePc.counting _) = 3
encode_left (EncodePc.sending _) = 4
encode_left (EncodePc.recording _) = 5
encode_left (EncodePc.encoding _) = 6
encode_left (EncodePc.drawing _) = 7
encode_left EncodePc.waiting = 8

abbrev pub ai_left : {F : Type 0} → AiPc F → ℕ
ai_left AiPc.finished = 0
ai_left AiPc.at_loop = 1
ai_left AiPc.counting = 2
ai_left (AiPc.logging _) = 3
ai_left (AiPc.recording _) = 4
ai_left (AiPc.updating _) = 5
ai_left (AiPc.inferring _) = 6
ai_left AiPc.waiting = 7

abbrev pub metrics_left : MetricsPc → ℕ
metrics_left MetricsPc.finished = 0
metrics_left MetricsPc.last_sample = 1
metrics_left MetricsPc.waking = 2
metrics_left MetricsPc.at_loop = 2
metrics_left MetricsPc.sampling = 3
metrics_left (MetricsPc.sleeping _) = 3

unfoldable pub remaining : {F : Type 0} → System F → ℕ
remaining s =
    capture_left s.capture
    + encode_left s.encode
    + ai_left s.ai
    + metrics_left s.metrics
    + (7 - stage s.main)

-- A turn of a thread after the end was announced brings it nearer, and announces nothing else.
abbrev pub Nearer : {F : Type 0} → System F → Turn F → Type 0
Nearer s waits = Unit
Nearer s faults = Unit
Nearer s (goes next) = (next.running ≡ false) × (remaining next < remaining s)

module _ {F : Type 0} (config : Config) (s : System F) (off : s.running ≡ false) where
  pub capture_acts-Nearer :
      (pc : CapturePc) (shot : Option (List ℕ)) (now : ℕ)
      → s.capture ≡ pc
      → Nearer s (capture_acts config pc shot now s)
  unfolding capture_acts remaining
  capture_acts-Nearer (CapturePc.capturing n) none now e = ground arith
  capture_acts-Nearer (CapturePc.capturing n) (some scratch) now e = ground arith
  capture_acts-Nearer (CapturePc.finished n) shot now e = tt
  capture_acts-Nearer _ shot now e = ground arith

  pub metrics_acts-Nearer :
      (pc : MetricsPc) (now : ℕ) (proc : ProcSample)
      → s.metrics ≡ pc
      → Nearer s (metrics_acts config pc now proc s)
  unfolding metrics_acts remaining
  metrics_acts-Nearer MetricsPc.at_loop now proc e = ground arith
  metrics_acts-Nearer MetricsPc.finished now proc e = tt
  metrics_acts-Nearer _ now proc e = ground arith

module _ {F : Type 0} (s : System F) (off : s.running ≡ false) where
  pub ai_acts-Nearer :
      (pc : AiPc F) (result : AiResult F) (us : ℕ) → s.ai ≡ pc → Nearer s (ai_acts pc result us s)
  unfolding ai_acts remaining
  ai_acts-Nearer AiPc.finished result us e = tt
  ai_acts-Nearer _ result us e = ground arith

  pub main_acts-Nearer : (pc : MainPc) → s.main ≡ pc → Nearer s (main_acts pc s)
  unfolding main_acts remaining
  main_acts-Nearer MainPc.finished e = tt
  main_acts-Nearer _ e = ground arith

  pub encode_acts-Nearer :
      (rounded : F → ℤ) (pc : EncodePc) (connects : Bool) (packet : Option (List ℕ)) (us : ℕ)
      (sends : Option Bool)
      → s.encode ≡ pc
      → Nearer s (encode_acts rounded pc connects packet us sends s)
  unfolding encode_acts remaining
  encode_acts-Nearer rounded EncodePc.finished connects packet us sends e = tt
  encode_acts-Nearer rounded _ connects packet us sends e = ground arith

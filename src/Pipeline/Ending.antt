-- ===== src/Pipeline/Ending.antt =====
-- How the camera process ends once `g_running` is false.
use edgevision_rv1126b.Prelude.{
  ◌+◌, ◌≤◌, ◌<◌, ◌≡◌, inl, inr, refl, ap, subst, ◌∙◌, true, false, List, [], ◌∷◌, ◌++◌, arith, All,
  length, sym,
}
use edgevision_rv1126b.Prelude.Int.{ℤ}
use edgevision_rv1126b.Overlay.{DetectionOverlay}
use edgevision_rv1126b.Metrics.{MetricsCollector}
use edgevision_rv1126b.Pipeline.{
  Config, CapturePc, EncodePc, AiPc, MetricsPc, MainPc, System, Action, start,
}
use edgevision_rv1126b.Pipeline.Threads.{
  waits, goes, is_finished, encode_finished, ai_finished, metrics_finished, capture_acts,
  encode_acts, ai_acts, metrics_acts, main_acts, act,
}
use edgevision_rv1126b.Pipeline.Invariant.{IsSound, Tenths}
use edgevision_rv1126b.Pipeline.Runs.{run, run-IsSound}
use edgevision_rv1126b.Pipeline.Nearer.{remaining, capture_left, encode_left, ai_left, metrics_left}
use edgevision_rv1126b.Pipeline.Rounds.{is_thread, IsRound, delays_of, in_a_row, next_nearer, idle}
use edgevision_rv1126b.Pipeline.Passing.{Passed, passed, run_append}

capture_left-le : (pc : CapturePc) → capture_left pc ≤ 7
capture_left-le (CapturePc.at_loop n) = omega arith
capture_left-le _ = omega arith

encode_left-le : (pc : EncodePc) → encode_left pc ≤ 8
encode_left-le EncodePc.finished = omega arith
encode_left-le _ = omega arith

ai_left-le : {F : Type 0} (pc : AiPc F) → ai_left pc ≤ 7
ai_left-le AiPc.finished = omega arith
ai_left-le _ = omega arith

metrics_left-le : (pc : MetricsPc) → metrics_left pc ≤ 3
metrics_left-le MetricsPc.finished = omega arith
metrics_left-le _ = omega arith

-- `main` has returned, and all threads have ended.
pub record IsOver {F : Type 0} (s : System F) : Type 0 where
  pub main : s.main ≡ MainPc.finished
  pub capture : is_finished s.capture ≡ true
  pub encode : encode_finished s.encode ≡ true
  pub ai : ai_finished s.ai ≡ true
  pub metrics : metrics_finished s.metrics ≡ true

-- The end of the process behind some turns.
abbrev pub Over : {F : Type 0} → (F → ℤ) → Config → System F → List (Action F) → Type 0
Over {F} rounded config s actions =
    (last : System F) × (run rounded config s actions ≡ goes last) × IsOver last

module _ {F : Type 0} (rounded : F → ℤ) (config : Config) where
  sound-IsOver : (s : System F) → IsSound s → s.main ≡ MainPc.finished → IsOver s
  sound-IsOver s v over = record {
    main = over;
    capture = v.capture_joined (ground arith);
    encode = v.encode_joined (ground arith);
    ai = v.ai_joined (ground arith);
    metrics = v.metrics_joined (ground arith);
  }

  module _ (s : System F) (o : IsOver s) where
    IsOver-Idle :
        (action : Action F) → is_thread action ≡ true → act rounded config s action ≡ waits
    unfolding act capture_acts encode_acts ai_acts metrics_acts main_acts
    IsOver-Idle (Action.capture shot now) t = by_pc s.capture o.capture
      where
        by_pc : (pc : CapturePc) → is_finished pc ≡ true → capture_acts config pc shot now s ≡ waits
        by_pc (CapturePc.finished n) e = refl
        by_pc _ e = cc
    IsOver-Idle (Action.encode connects packet us sends) t = by_pc s.encode o.encode
      where
        by_pc :
            (pc : EncodePc)
            → encode_finished pc ≡ true
            → encode_acts rounded pc connects packet us sends s ≡ waits
        by_pc EncodePc.finished e = refl
        by_pc _ e = cc
    IsOver-Idle (Action.ai result us) t = by_pc s.ai o.ai
      where
        by_pc : (pc : AiPc F) → ai_finished pc ≡ true → ai_acts pc result us s ≡ waits
        by_pc AiPc.finished e = refl
        by_pc _ e = cc
    IsOver-Idle (Action.metrics now proc) t = by_pc s.metrics o.metrics
      where
        by_pc :
            (pc : MetricsPc)
            → metrics_finished pc ≡ true
            → metrics_acts config pc now proc s ≡ waits
        by_pc MetricsPc.finished e = refl
        by_pc _ e = cc
    IsOver-Idle Action.main t = ap (λ p. main_acts p s) o.main
    IsOver-Idle Action.signal t = cc

    IsOver-stays :
        (actions : List (Action F))
        → All (λ a. is_thread a ≡ true) actions
        → run rounded config s actions ≡ goes s
    unfolding run
    IsOver-stays [] threads = refl
    IsOver-stays (action ∷ actions) (thread, threads) =
        rw (IsOver-Idle action thread, run) (IsOver-stays actions threads)

    IsOver-Over :
        (rounds : List (List (Action F)))
        → All IsRound rounds
        → Over rounded config s (in_a_row rounds)
    unfolding run
    IsOver-Over [] all = (s, refl, o)
    IsOver-Over (round ∷ rounds) (r, all) =
        let (last, reached, over) = IsOver-Over rounds all in
        (
          last,
          run_append rounded config round (in_a_row rounds) s (IsOver-stays round r.0) ∙ reached,
          over,
        )

  module _ (fits : Tenths config.metrics_interval_sec) where
    rounds-Over :
        (rounds : List (List (Action F))) (s : System F)
        → IsSound s
        → s.running ≡ false
        → All IsRound rounds
        → remaining s + delays_of rounds < length rounds
        → Over rounded config s (in_a_row rounds)
    rounds-Over [] s v off all few = absurd (omega arith)
    rounds-Over (round ∷ rounds) s v off (r, all) few =
        by_round (passed rounded config fits round s v off r.0)
          (λ t w o. rounds-Over rounds t w o all)
      where
        by_round :
            Passed rounded config fits s round
            → ((t : System F)
                → IsSound t
                → t.running ≡ false
                → remaining t + delays_of rounds < length rounds
                → Over rounded config t (in_a_row rounds))
            → Over rounded config s (round ++ in_a_row rounds)
        by_round p rest =
            let rest_over : Over rounded config p.next (in_a_row rounds) = elim p.nearer [
              | inl less ↦ rest p.next p.sound p.off (omega (arith, less))
              | inr (same, waiting) ↦
                  elim (idle rounded config fits s v round waiting s.main refl r) [
                    | inl returned ↦
                        subst (λ t. Over rounded config t (in_a_row rounds)) (sym same)
                          (IsOver-Over s (sound-IsOver s v returned) rounds all)
                    | inr late ↦
                        rest p.next p.sound p.off
                          (omega (arith, ap (λ (t : System F). remaining t) same, late))
                  ]
            ] in
            let (last, reached, over) = rest_over in
            (last, run_append rounded config round (in_a_row rounds) s p.reached ∙ reached, over)

  -- A state in which the end of the process is announced, before `rounds`.
  pub record Ending (s : System F) (rounds : List (List (Action F))) : Type 0 where
    pub nearer :
        (action : Action F) (next : System F)
        → is_thread action ≡ true
        → act rounded config s action ≡ goes next
        → (next.running ≡ false) × (remaining next < remaining s)
    pub few : remaining s ≤ 32
    pub ends : Over rounded config s (in_a_row rounds)

  few_left : (s : System F) → remaining s ≤ 32
  unfolding remaining
  few_left s = omega (
    arith,
    capture_left-le s.capture,
    encode_left-le s.encode,
    ai_left-le s.ai,
    metrics_left-le s.metrics,
  )

  -- When `g_running` is false in a run of the camera process, be it after a signal, a gateway that cannot be
  -- reached or a packet that cannot be sent, where the queues hold a frame and ten times the interval of the
  -- metrics is an `int`: each access of a thread brings the end nearer, whatever it is answered, and there
  -- are 32 of them at most. In every schedule the process ends, with `main` returned and all threads ended,
  -- once it has had more rounds, in each of which every thread has a turn, than 32 and the turns in
  -- which `sendPacket` does not return. This asks that `sendPacket` returns at last, as each other call
  -- does: with a gateway that takes no bytes and keeps the connection, it need not.
  pub shutdown-Ending :
      (overlay : DetectionOverlay F) (collector : MetricsCollector) (actions : List (Action F))
      (s : System F) (rounds : List (List (Action F)))
      → 0 < config.encode_queue_capacity
      → 0 < config.ai_queue_capacity
      → Tenths config.metrics_interval_sec
      → run rounded config (start config overlay collector) actions ≡ goes s
      → s.running ≡ false
      → All IsRound rounds
      → 32 + delays_of rounds < length rounds
      → Ending s rounds
  shutdown-Ending overlay collector actions s rounds he ha fits reached off all enough =
      let (last, e, sound) = run-IsSound rounded config fits overlay collector actions he ha in
      let same : last ≡ s = cc in
      let v : IsSound s = subst (λ t. IsSound t) same sound in
      record {
        nearer = λ action next thread e. next_nearer rounded config s next action off thread e;
        few = few_left s;
        ends = rounds-Over fits rounds s v off all (omega (arith, few_left s));
      }

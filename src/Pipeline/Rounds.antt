-- ===== src/Pipeline/Rounds.antt =====
-- A schedule of the threads of camera/src/main.cpp in rounds, in each of which every thread has a turn: while
-- the process ends, each round brings the end nearer or waits for a call of `sendPacket`.
use edgevision_rv1126b.Prelude.{
  ℕ, ◌+◌, ◌≤◌, ◌<◌, ◌≡◌, ◌⊎◌, inl, inr, refl, ap, subst, Bool, true, false, List, [], ◌∷◌, ◌++◌,
  none, some, arith, All, AnyOf,
}
use edgevision_rv1126b.Prelude.Int.{ℤ}
use edgevision_rv1126b.Pipeline.{Config, MainPc, System, Action}
use edgevision_rv1126b.Pipeline.Threads.{
  Turn, waits, goes, is_finished, encode_finished, ai_finished, metrics_finished, join,
  capture_acts, encode_acts, ai_acts, metrics_acts, main_acts, act,
}
use edgevision_rv1126b.Pipeline.Invariant.{IsSound, Tenths}
use edgevision_rv1126b.Pipeline.Nearer.{
  remaining, Nearer, capture_acts-Nearer, metrics_acts-Nearer, ai_acts-Nearer, main_acts-Nearer,
  encode_acts-Nearer,
}
use edgevision_rv1126b.Pipeline.Progress.{
  Goes, capture_acts-Goes, metrics_acts-Goes, ai_acts-Goes, encode_acts-Goes,
}

module _ {F : Type 0} where
  -- An action of a thread, not a signal.
  abbrev pub is_thread : Action F → Bool
  is_thread Action.signal = false
  is_thread _ = true

  abbrev pub ByCapture : Action F → Type 0
  ByCapture (Action.capture shot now) = Unit
  ByCapture _ = ⊥

  abbrev pub ByEncode : Action F → Type 0
  ByEncode (Action.encode connects packet us sends) = Unit
  ByEncode _ = ⊥

  abbrev pub ByAi : Action F → Type 0
  ByAi (Action.ai result us) = Unit
  ByAi _ = ⊥

  abbrev pub ByMetrics : Action F → Type 0
  ByMetrics (Action.metrics now proc) = Unit
  ByMetrics _ = ⊥

  abbrev pub ByMain : Action F → Type 0
  ByMain Action.main = Unit
  ByMain _ = ⊥

  -- Turns of the threads in any order, at least one of each.
  abbrev pub IsRound : List (Action F) → Type 0
  IsRound actions =
      All (λ a. is_thread a ≡ true) actions
      × AnyOf ByCapture actions
      × AnyOf ByEncode actions
      × AnyOf ByAi actions
      × AnyOf ByMetrics actions
      × AnyOf ByMain actions

  -- A turn of the encode thread in which `sendPacket`, if it is called, does not return.
  abbrev pub delays : Action F → ℕ
  delays (Action.encode connects packet us none) = 1
  delays _ = 0

  abbrev pub all_delays : List (Action F) → ℕ
  all_delays [] = 0
  all_delays (action ∷ actions) = delays action + all_delays actions

  abbrev pub delays_of : List (List (Action F)) → ℕ
  delays_of [] = 0
  delays_of (round ∷ rounds) = all_delays round + delays_of rounds

  abbrev pub in_a_row : List (List (Action F)) → List (Action F)
  in_a_row [] = []
  in_a_row (round ∷ rounds) = round ++ in_a_row rounds

  delayed : (actions : List (Action F)) → AnyOf (λ a. 1 ≤ delays a) actions → 1 ≤ all_delays actions
  delayed [] any = absurd any
  delayed (a ∷ actions) (inl one) = omega arith
  delayed (a ∷ actions) (inr any) = omega (arith, delayed actions any)

-- A member that both are about.
both :
    {A : Type 0} (P Q R : A → Type 0) (xs : List A)
    → ((x : A) → P x → Q x → R x)
    → AnyOf P xs
    → All Q xs
    → AnyOf R xs
both P Q R [] f any all = absurd any
both P Q R (x ∷ xs) f (inl p) (q, all) = inl (f x p q)
both P Q R (x ∷ xs) f (inr any) (q, all) = inr (both P Q R xs f any all)

no_member : {A : Type 0} (xs : List A) → AnyOf (λ x. ⊥) xs → ⊥
no_member [] any = absurd any
no_member (x ∷ xs) (inl h) = h
no_member (x ∷ xs) (inr any) = no_member xs any

module _ {F : Type 0} (rounded : F → ℤ) (config : Config) where
  act-Nearer :
      (s : System F) (action : Action F)
      → s.running ≡ false
      → is_thread action ≡ true
      → Nearer s (act rounded config s action)
  unfolding act
  act-Nearer s (Action.capture shot now) off e =
      capture_acts-Nearer config s off s.capture shot now refl
  act-Nearer s (Action.encode connects packet us sends) off e =
      encode_acts-Nearer s off rounded s.encode connects packet us sends refl
  act-Nearer s (Action.ai result us) off e = ai_acts-Nearer s off s.ai result us refl
  act-Nearer s (Action.metrics now proc) off e =
      metrics_acts-Nearer config s off s.metrics now proc refl
  act-Nearer s Action.main off e = main_acts-Nearer s off s.main refl
  act-Nearer s Action.signal off e = cc

  pub next_nearer :
      (s next : System F) (action : Action F)
      → s.running ≡ false
      → is_thread action ≡ true
      → act rounded config s action ≡ goes next
      → (next.running ≡ false) × (remaining next < remaining s)
  next_nearer s next action off e f = subst (Nearer s) f (act-Nearer s action off e)

  -- A turn that goes is no turn that waits.
  moving : {A : Type 0} (turn : Turn F) → Goes turn → turn ≡ waits → A
  moving turn (next, e) f = cc

  module _ (fits : Tenths config.metrics_interval_sec) where
    abbrev pub Idle : System F → Action F → Type 0
    Idle s action = act rounded config s action ≡ waits

    module _ (s : System F) (v : IsSound s) (actions : List (Action F))
        (all : All (Idle s) actions) where
      -- In a round, no thread of a kind waits that can go on.
      refuted :
          {A : Type 0} (P : Action F → Type 0)
          → ((a : Action F) → P a → Idle s a → ⊥)
          → AnyOf P actions
          → A
      refuted P f any = absurd (no_member actions (both P (Idle s) (λ a. ⊥) actions f any all))

      main_goes : {A : Type 0} → Goes (main_acts s.main s) → AnyOf ByMain actions → A
      unfolding act
      main_goes g = refuted ByMain by_kind
        where
          by_kind : (a : Action F) → ByMain a → Idle s a → ⊥
          by_kind Action.main p e = moving (main_acts s.main s) g e
          by_kind _ p e = p

      capture_goes : {A : Type 0} → is_finished s.capture ≡ false → AnyOf ByCapture actions → A
      unfolding act
      capture_goes busy = refuted ByCapture by_kind
        where
          by_kind : (a : Action F) → ByCapture a → Idle s a → ⊥
          by_kind (Action.capture shot now) p e =
              moving (capture_acts config s.capture shot now s)
                (capture_acts-Goes config s s.capture shot now v busy) e
          by_kind _ p e = p

      ai_goes :
          {A : Type 0}
          → s.ai_queue.stopped ≡ true
          → ai_finished s.ai ≡ false
          → AnyOf ByAi actions
          → A
      unfolding act
      ai_goes stopped busy = refuted ByAi by_kind
        where
          by_kind : (a : Action F) → ByAi a → Idle s a → ⊥
          by_kind (Action.ai result us) p e =
              moving (ai_acts s.ai result us s) (ai_acts-Goes s s.ai result us stopped busy) e
          by_kind _ p e = p

      metrics_goes : {A : Type 0} → metrics_finished s.metrics ≡ false → AnyOf ByMetrics actions → A
      unfolding act
      metrics_goes busy = refuted ByMetrics by_kind
        where
          by_kind : (a : Action F) → ByMetrics a → Idle s a → ⊥
          by_kind (Action.metrics now proc) p e =
              moving (metrics_acts config s.metrics now proc s)
                (metrics_acts-Goes config s s.metrics now proc fits busy) e
          by_kind _ p e = p

      encode_delays :
          s.encode_queue.stopped ≡ true
          → encode_finished s.encode ≡ false
          → AnyOf ByEncode actions
          → 1 ≤ all_delays actions
      unfolding act
      encode_delays stopped busy any =
          delayed actions (both ByEncode (Idle s) (λ a. 1 ≤ delays a) actions by_kind any all)
        where
          by_kind : (a : Action F) → ByEncode a → Idle s a → 1 ≤ delays a
          by_kind (Action.encode connects packet us none) p e = omega arith
          by_kind (Action.encode connects packet us (some sent)) p e =
              elim (encode_acts-Goes s rounded s.encode connects packet us (some sent) stopped
                busy) [
                  | inl never ↦ cc
                  | inr g ↦
                      moving (encode_acts rounded s.encode connects packet us (some sent) s) g e
                ]
          by_kind _ p e = absurd p

      main_joins :
          (next : MainPc) (ended : Bool)
          → main_acts s.main s ≡ join ended s next
          → IsRound actions
          → (ended ≡ false → 1 ≤ all_delays actions)
          → 1 ≤ all_delays actions
      main_joins next true f (threads, c, e, a, m, main) busy = main_goes (_, f) main
      main_joins next false f r busy = busy refl

      -- A round in which nothing happens: `main` has returned, or `sendPacket` does not return.
      pub idle :
          (pc : MainPc)
          → s.main ≡ pc
          → IsRound actions
          → (pc ≡ MainPc.finished) ⊎ (1 ≤ all_delays actions)
      unfolding main_acts
      idle MainPc.watching at (threads, c, e, a, m, main) =
          main_goes (_, ap (λ p. main_acts p s) at) main
      idle MainPc.stopping_encode at (threads, c, e, a, m, main) =
          main_goes (_, ap (λ p. main_acts p s) at) main
      idle MainPc.stopping_ai at (threads, c, e, a, m, main) =
          main_goes (_, ap (λ p. main_acts p s) at) main
      idle MainPc.joining_capture at (threads, c, e, a, m, main) = inr (
          main_joins MainPc.joining_encode (is_finished s.capture) (ap (λ p. main_acts p s) at)
            (threads, c, e, a, m, main) (λ busy. capture_goes busy c))
      idle MainPc.joining_encode at (threads, c, e, a, m, main) = inr (
          main_joins MainPc.joining_ai (encode_finished s.encode) (ap (λ p. main_acts p s) at)
            (threads, c, e, a, m, main)
            (λ busy. encode_delays (v.encode_stopped (ground arith)) busy e))
      idle MainPc.joining_ai at (threads, c, e, a, m, main) = inr (
          main_joins MainPc.joining_metrics (ai_finished s.ai) (ap (λ p. main_acts p s) at)
            (threads, c, e, a, m, main) (λ busy. ai_goes (v.ai_stopped (ground arith)) busy a))
      idle MainPc.joining_metrics at (threads, c, e, a, m, main) = inr (
          main_joins MainPc.finished (metrics_finished s.metrics) (ap (λ p. main_acts p s) at)
            (threads, c, e, a, m, main) (λ busy. metrics_goes busy m))
      idle MainPc.finished at r = inl refl

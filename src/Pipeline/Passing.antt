-- ===== src/Pipeline/Passing.antt =====
-- What some turns of the threads of camera/src/main.cpp do while the process ends, one after the other.
use edgevision_rv1126b.Prelude.{
  ◌<◌, ◌≡◌, ◌⊎◌, inl, inr, refl, ap, sym, subst, true, false, List, [], ◌∷◌, ◌++◌, arith, All,
}
use edgevision_rv1126b.Prelude.Int.{ℤ}
use edgevision_rv1126b.Pipeline.{Config, System, Action}
use edgevision_rv1126b.Pipeline.Threads.{Turn, waits, faults, goes, act}
use edgevision_rv1126b.Pipeline.Invariant.{IsSound, Tenths, act-Sound, Sound}
use edgevision_rv1126b.Pipeline.Runs.{run}
use edgevision_rv1126b.Pipeline.Nearer.{remaining}
use edgevision_rv1126b.Pipeline.Rounds.{is_thread, Idle, next_nearer}

module _ {F : Type 0} (rounded : F → ℤ) (config : Config) where
  module _ (fits : Tenths config.metrics_interval_sec) where
    -- What some turns do while the process ends: they bring the end nearer, or nothing happens.
    pub record Passed (s : System F) (actions : List (Action F)) : Type 0 where
      pub next : System F
      pub reached : run rounded config s actions ≡ goes next
      pub sound : IsSound next
      pub off : next.running ≡ false
      pub nearer :
          (remaining next < remaining s) ⊎ ((next ≡ s) × All (Idle rounded config fits s) actions)

    pub passed :
        (actions : List (Action F)) (s : System F)
        → IsSound s
        → s.running ≡ false
        → All (λ a. is_thread a ≡ true) actions
        → Passed s actions
    unfolding run
    passed [] s v off threads = record {
      next = s;
      reached = refl;
      sound = v;
      off = off;
      nearer = inr (refl, tt);
    }
    passed (action ∷ actions) s v off (thread, threads) =
        by_turn (act rounded config s action) refl (λ t w o. passed actions t w o threads)
      where
        by_turn :
            (turn : Turn F)
            → act rounded config s action ≡ turn
            → ((t : System F) → IsSound t → t.running ≡ false → Passed t actions)
            → Passed s (action ∷ actions)
        by_turn waits e rest =
            let p = rest s v off in
            record {
              next = p.next;
              reached = rw (e, run) p.reached;
              sound = p.sound;
              off = p.off;
              nearer = elim p.nearer [
                | inl less ↦ inl less
                | inr (same, all) ↦ inr (same, (e, all))
              ];
            }
        by_turn faults e rest = absurd (subst Sound e (act-Sound rounded config fits s action v))
        by_turn (goes mid) e rest =
            let (still, less) = next_nearer rounded config s mid action off thread e in
            let p = rest mid (subst Sound e (act-Sound rounded config fits s action v)) still in
            record {
              next = p.next;
              reached = rw (e, run) p.reached;
              sound = p.sound;
              off = p.off;
              nearer = inl (elim p.nearer [
                | inl lesser ↦ omega (arith, lesser, less)
                | inr (same, all) ↦ subst (λ t. remaining t < remaining s) (sym same) less
              ]);
            }

pub run_append :
    {F : Type 0} (rounded : F → ℤ) (config : Config) (xs ys : List (Action F)) (s : System F)
    {next : System F}
    → run rounded config s xs ≡ goes next
    → run rounded config s (xs ++ ys) ≡ run rounded config next ys
unfolding run
run_append rounded config [] ys s e =
    let same : s ≡ _ = cc in ap (λ t. run rounded config t ys) same
run_append {F} rounded config (x ∷ xs) ys s {next} e =
    by_turn (act rounded config s x) e (λ t. run_append rounded config xs ys t)
  where
    by_turn :
        (turn : Turn F)
        → (elim turn [
          | waits ↦ run rounded config s xs
          | faults ↦ faults
          | goes mid ↦ run rounded config mid xs
        ])
          ≡ goes next
        → ((t : System F)
            → run rounded config t xs ≡ goes next
            → run rounded config t (xs ++ ys) ≡ run rounded config next ys)
        → (elim turn [
          | waits ↦ run rounded config s (xs ++ ys)
          | faults ↦ faults
          | goes mid ↦ run rounded config mid (xs ++ ys)
        ])
          ≡ run rounded config next ys
    by_turn waits f rest = rest s f
    by_turn faults f rest = cc
    by_turn (goes mid) f rest = rest mid f

-- ===== src/Detector/Nms/Greedy.antt =====
-- What the selection keeps, and why it drops the others.
use edgevision_rv1126b.Prelude.{
  ℕ, ◌≤◌, ◌<◌, ◌≡◌, refl, ◌⊎◌, inl, inr, Bool, true, false, List, [], ◌∷◌, ◌++◌, arith, length, All,
  All-append, length-append, append-nil, append_assoc, Bool-cases, or_false, AnyOf,
  AnyOf-append_left, AnyOf-append_right, AnyOf-insert, All-map,
}
use edgevision_rv1126b.Prelude.Int.{ℤ, pos, pos_part, ltb_ℤ}
use edgevision_rv1126b.Ai.{Detection}
use edgevision_rv1126b.Floats.{Floats}
use edgevision_rv1126b.Detector.Nms.{conflicts, is_suppressed, is_enough, select, apply_nms}

module _ (fl : Floats) (threshold : fl.Float) (max_results : ℤ) where
  -- Each detection is clear of those before it.
  abbrev pub Clear : Detection fl.Float → List (Detection fl.Float) → Type 0
  Clear d = All (λ s. conflicts fl threshold d s ≡ false)

  abbrev pub ClearAfter : List (Detection fl.Float) → List (Detection fl.Float) → Type 0
  ClearAfter before [] = Unit {0}
  ClearAfter before (d ∷ ds) = Clear d before × ClearAfter (before ++ d ∷ []) ds

  -- `d` is one of `kept`, or one of the same class overlaps it that scores no less.
  abbrev pub Covered : List (Detection fl.Float) → Detection fl.Float → Type 0
  Covered kept d =
      AnyOf
        (λ s. (s ≡ d) ⊎ ((conflicts fl threshold d s ≡ true) × (fl.less s.score d.score ≡ false)))
        kept

  abbrev pub Below : Detection fl.Float → List (Detection fl.Float) → Type 0
  Below s = All (λ d. fl.less s.score d.score ≡ false)

  abbrev pub Descending : List (Detection fl.Float) → Type 0
  Descending [] = Unit {0}
  Descending (d ∷ ds) = Below d ds × Descending ds

  abbrev Limited : ℕ → Type 0
  Limited size = ltb_ℤ (pos 0) max_results ≡ true → size ≤ pos_part max_results

  -- The answer for the candidates, behind those kept already.
  record Selected (kept candidates result : List (Detection fl.Float)) : Type 0 where
    clear : ClearAfter [] result
    few : Limited (length result)
    chosen : All (λ d. AnyOf (λ s. s ≡ d) (kept ++ candidates)) result
    extends : (d : Detection fl.Float) → Covered kept d → Covered result d
    covers : ltb_ℤ (pos 0) max_results ≡ false → All (Covered result) candidates

  ClearAfter-append :
      (before ds : List (Detection fl.Float)) (d : Detection fl.Float)
      → ClearAfter before ds
      → Clear d (before ++ ds)
      → ClearAfter before (ds ++ d ∷ [])
  ClearAfter-append before [] d c h = (rw append-nil at h, tt)
  ClearAfter-append before (e ∷ ds) d (p, c) h =
      (p, ClearAfter-append (before ++ e ∷ []) ds d c (rw (append_assoc before (e ∷ []) ds) h))

  is_suppressed-Clear :
      (d : Detection fl.Float) (kept : List (Detection fl.Float))
      → is_suppressed fl threshold d kept ≡ false
      → Clear d kept
  unfolding is_suppressed
  is_suppressed-Clear d [] e = tt
  is_suppressed-Clear d (s ∷ kept) e =
      let (p, h) = or_false (conflicts fl threshold d s) (is_suppressed fl threshold d kept) e in
      (p, is_suppressed-Clear d kept h)

  is_suppressed-Covered :
      (d : Detection fl.Float) (kept : List (Detection fl.Float))
      → is_suppressed fl threshold d kept ≡ true
      → All (λ s. fl.less s.score d.score ≡ false) kept
      → Covered kept d
  unfolding is_suppressed
  is_suppressed-Covered d [] e h = cc
  is_suppressed-Covered d (s ∷ kept) e (p, h) = elim (Bool-cases (conflicts fl threshold d s)) [
    | inl c ↦ inl (inr (c, p))
    | inr n ↦ inr (is_suppressed-Covered d kept (rw n at e) h)
  ]

  self_AnyOf : (xs : List (Detection fl.Float)) → All (λ d. AnyOf (λ s. s ≡ d) xs) xs
  self_AnyOf [] = tt
  self_AnyOf (x ∷ xs) = (inl refl, All-map _ _ xs (λ d h. inr h) (self_AnyOf xs))

  -- Nothing is left to look at.
  stopped-Selected :
      (kept candidates : List (Detection fl.Float))
      → ClearAfter [] kept
      → Limited (length kept)
      → (ltb_ℤ (pos 0) max_results ≡ false → All (Covered kept) candidates)
      → Selected kept candidates kept
  stopped-Selected kept candidates c few covers = record {
    clear = c;
    few = few;
    chosen = All-map _ _ kept (λ d h. AnyOf-append_left _ kept candidates h) (self_AnyOf kept);
    extends = λ d h. h;
    covers = covers;
  }

  -- A suppressed candidate.
  dropped-Selected :
      (kept candidates result : List (Detection fl.Float)) (d : Detection fl.Float)
      → Covered kept d
      → Selected kept candidates result
      → Selected kept (d ∷ candidates) result
  dropped-Selected kept candidates result d cov s = record {
    clear = s.clear;
    few = s.few;
    chosen = All-map _ _ result (λ e h. AnyOf-insert _ kept candidates d h) s.chosen;
    extends = s.extends;
    covers = λ n. (s.extends d cov, s.covers n);
  }

  -- A candidate that is kept.
  kept-Selected :
      (kept candidates result : List (Detection fl.Float)) (d : Detection fl.Float)
      → Selected (kept ++ d ∷ []) candidates result
      → Selected kept (d ∷ candidates) result
  kept-Selected kept candidates result d s = record {
    clear = s.clear;
    few = s.few;
    chosen = rw (append_assoc kept (d ∷ []) candidates) at s.chosen;
    extends = λ e h. s.extends e (AnyOf-append_left _ kept (d ∷ []) h);
    covers = λ n. (s.extends d (AnyOf-append_right _ kept (d ∷ []) (inl (inl refl))), s.covers n);
  }

  not_enough :
      (size : ℕ)
      → is_enough fl max_results size ≡ false
      → ltb_ℤ (pos 0) max_results ≡ true
      → size < pos_part max_results
  not_enough size e t = ground arith

  enough_limited :
      (size : ℕ) → is_enough fl max_results size ≡ true → ltb_ℤ (pos 0) max_results ≡ true
  enough_limited size e = ground arith

  -- The two tests on a candidate, over what the rest of the loop does.
  one-Selected :
      (kept ds : List (Detection fl.Float)) (d : Detection fl.Float)
      → ClearAfter [] kept
      → (ltb_ℤ (pos 0) max_results ≡ true → length kept < pos_part max_results)
      → All (λ s. Below s (d ∷ ds)) kept
      → Selected kept ds (select fl threshold max_results kept ds)
      → (ClearAfter [] (kept ++ d ∷ [])
          → (ltb_ℤ (pos 0) max_results ≡ true → length (kept ++ d ∷ []) < pos_part max_results)
          → Selected (kept ++ d ∷ []) ds (select fl threshold max_results (kept ++ d ∷ []) ds))
      → Selected kept (d ∷ ds) (select fl threshold max_results kept (d ∷ ds))
  unfolding select
  one-Selected kept ds d c room below drop more = by_test (is_suppressed fl threshold d kept) refl
    where
      by_enough :
          (b : Bool)
          → is_enough fl max_results (length (kept ++ d ∷ [])) ≡ b
          → is_suppressed fl threshold d kept ≡ false
          → Selected kept (d ∷ ds) (elim b [
            | true ↦ kept ++ d ∷ []
            | false ↦ select fl threshold max_results (kept ++ d ∷ []) ds
          ])
      by_enough true e clear =
          let limited = enough_limited (length (kept ++ d ∷ [])) e in
          kept-Selected kept ds (kept ++ d ∷ []) d (
            stopped-Selected (kept ++ d ∷ []) ds
              (ClearAfter-append [] kept d c (is_suppressed-Clear d kept clear))
              (λ t. omega (arith, room t, length-append kept (d ∷ []))) (λ n. cc))
      by_enough false e clear = kept-Selected kept ds _ d (
          more (ClearAfter-append [] kept d c (is_suppressed-Clear d kept clear))
            (not_enough (length (kept ++ d ∷ [])) e))

      by_test :
          (b : Bool)
          → is_suppressed fl threshold d kept ≡ b
          → Selected kept (d ∷ ds) (elim b [
            | true ↦ select fl threshold max_results kept ds
            | false ↦ elim (is_enough fl max_results (length (kept ++ d ∷ []))) [
              | true ↦ kept ++ d ∷ []
              | false ↦ select fl threshold max_results (kept ++ d ∷ []) ds
            ]
          ])
      by_test true e =
          dropped-Selected kept ds _ d
            (is_suppressed-Covered d kept e
              (All-map (λ s. Below s (d ∷ ds)) _ kept (λ s h. h.0) below))
            drop
      by_test false e = by_enough (is_enough fl max_results (length (kept ++ d ∷ []))) refl e

  select-Selected :
      (candidates kept : List (Detection fl.Float))
      → ClearAfter [] kept
      → (ltb_ℤ (pos 0) max_results ≡ true → length kept < pos_part max_results)
      → All (λ s. Below s candidates) kept
      → Descending candidates
      → Selected kept candidates (select fl threshold max_results kept candidates)
  unfolding select
  select-Selected [] kept c room below desc =
      stopped-Selected kept [] c (λ t. omega (arith, room t)) (λ n. tt)
  select-Selected (d ∷ ds) kept c room below (first, desc) =
      let rest = All-map (λ s. Below s (d ∷ ds)) (λ s. Below s ds) kept (λ s h. h.1) below in
      one-Selected kept ds d c room below (select-Selected ds kept c room rest desc) (λ c' room'.
        select-Selected ds (kept ++ d ∷ []) c' room'
          (All-append (λ s. Below s ds) kept (d ∷ []) rest (first, tt)) desc)

-- The detections after the suppression of `detections`.
pub record Suppressed (fl : Floats) (detections : List (Detection fl.Float)) (threshold : fl.Float)
    (max_results : ℤ) (result : List (Detection fl.Float)) : Type 0 where
  -- No detection overlaps an earlier one of its class by more than the threshold.
  pub clear : ClearAfter fl threshold max_results [] result
  pub few : ltb_ℤ (pos 0) max_results ≡ true → length result ≤ pos_part max_results
  pub chosen : All (λ d. AnyOf (λ s. s ≡ d) detections) result
  -- Without a limit, whatever is missing is overlapped by a detection that scores no less.
  pub covers :
      ltb_ℤ (pos 0) max_results ≡ false → All (Covered fl threshold max_results result) detections

-- `applyNms` where `std::sort` returns the members of its range in descending order: of the detections
-- left none overlaps an earlier one of its class by more than the threshold; with a positive limit
-- there are no more than that; each is one of those given; and without a limit each of those given
-- is left, or one of its class that scores no less is left and overlaps it by more than the threshold.
pub apply_nms-Suppressed :
    (fl : Floats) (sort : List (Detection fl.Float) → List (Detection fl.Float))
    (detections : List (Detection fl.Float)) (threshold : fl.Float) (max_results : ℤ)
    → Descending fl threshold max_results (sort detections)
    → ((P : Detection fl.Float → Type 0) → All P (sort detections) → All P detections)
    → ((P : Detection fl.Float → Type 0) → AnyOf P (sort detections) → AnyOf P detections)
    → Suppressed fl detections threshold max_results
        (apply_nms fl sort detections threshold max_results)
unfolding apply_nms
apply_nms-Suppressed fl sort detections threshold max_results desc all any =
    let s =
      select-Selected fl threshold max_results (sort detections) [] tt (λ t. ground arith) tt
        desc in
    record {
      clear = s.clear;
      few = s.few;
      chosen = All-map _ _ _ (λ d h. any (λ s. s ≡ d) h) s.chosen;
      covers = λ n. all _ (s.covers n);
    }

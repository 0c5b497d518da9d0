-- ===== src/Detector/Nms.antt =====
-- `applyNms`: non-maximum suppression. `std::sort` is a parameter; for a comparison that is a strict
-- weak order on its range it returns the members in descending order of the scores. With a NaN among the
-- scores the call is undefined behaviour, and the model says nothing.
pub mod Greedy
mod Tests
use edgevision_rv1126b.Prelude.{
  ℕ, ◌+◌, Bool, true, false, ◌&&◌, ◌||◌, List, [], ◌∷◌, ◌++◌, ltb, leb, ◌==◌, if◌then◌else◌, length,
}
use edgevision_rv1126b.Prelude.Int.{ℤ, pos, pos_part, neg_part, ltb_ℤ}
use edgevision_rv1126b.Ai.{Detection}
use edgevision_rv1126b.Floats.{Floats, fmax, fmin}

abbrev pub eqb_ℤ : ℤ → ℤ → Bool
eqb_ℤ a b = pos_part a + neg_part b == pos_part b + neg_part a

module _ (fl : Floats) where
  abbrev pub span : fl.Float → fl.Float → fl.Float
  span a b = fmax fl (fl.of_int (pos 0)) (fl.minus b a)

  unfoldable pub intersection_over_union : Detection fl.Float → Detection fl.Float → fl.Float
  intersection_over_union lhs rhs =
      let inter_w = span (fmax fl lhs.x1 rhs.x1) (fmin fl lhs.x2 rhs.x2) in
      let inter_h = span (fmax fl lhs.y1 rhs.y1) (fmin fl lhs.y2 rhs.y2) in
      let inter_area = fl.times inter_w inter_h in
      let lhs_area = fl.times (span lhs.x1 lhs.x2) (span lhs.y1 lhs.y2) in
      let rhs_area = fl.times (span rhs.x1 rhs.x2) (span rhs.y1 rhs.y2) in
      let union_area = fl.minus (fl.plus lhs_area rhs_area) inter_area in
      if fl.at_most union_area (fl.of_int (pos 0))
      then fl.of_int (pos 0)
      else fl.divided inter_area union_area

  -- The test of a candidate against one selected detection.
  unfoldable pub conflicts : fl.Float → Detection fl.Float → Detection fl.Float → Bool
  unfolding intersection_over_union
  conflicts nms_threshold candidate selected =
      eqb_ℤ candidate.class_id selected.class_id
      && fl.less nms_threshold (intersection_over_union candidate selected)

  -- The inner loop.
  unfoldable pub is_suppressed : fl.Float → Detection fl.Float → List (Detection fl.Float) → Bool
  unfolding conflicts
  is_suppressed nms_threshold candidate [] = false
  is_suppressed nms_threshold candidate (selected ∷ kept) =
      conflicts nms_threshold candidate selected || is_suppressed nms_threshold candidate kept

  -- `max_results > 0 && kept.size() >= max_results`.
  abbrev pub is_enough : ℤ → ℕ → Bool
  is_enough max_results size = ltb_ℤ (pos 0) max_results && leb (pos_part max_results) size

  -- The loop over the candidates.
  unfoldable pub select :
      fl.Float
      → ℤ
      → List (Detection fl.Float)
      → List (Detection fl.Float)
      → List (Detection fl.Float)
  unfolding is_suppressed
  select nms_threshold max_results kept [] = kept
  select nms_threshold max_results kept (candidate ∷ candidates) =
      elim (is_suppressed nms_threshold candidate kept) [
        | true ↦ select nms_threshold max_results kept candidates
        | false ↦ elim (is_enough max_results (length (kept ++ candidate ∷ []))) [
          | true ↦ kept ++ candidate ∷ []
          | false ↦ select nms_threshold max_results (kept ++ candidate ∷ []) candidates
        ]
      ]

  unfoldable pub apply_nms :
      (List (Detection fl.Float) → List (Detection fl.Float))
      → List (Detection fl.Float)
      → fl.Float
      → ℤ
      → List (Detection fl.Float)
  unfolding select
  apply_nms sort detections nms_threshold max_results =
      select nms_threshold max_results [] (sort detections)

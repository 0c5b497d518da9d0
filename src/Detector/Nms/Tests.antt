-- ===== src/Detector/Nms/Tests.antt =====
-- Three boxes: the second overlaps the first one of its class, the third is of another class.
use edgevision_rv1126b.Prelude.{◌≡◌, refl, List, [], ◌∷◌, ℕ, ◌+◌}
use edgevision_rv1126b.Prelude.Int.{pos}
use edgevision_rv1126b.Ai.{Detection}
use edgevision_rv1126b.Floats.Samples.{whole}
use edgevision_rv1126b.Detector.Nms.{
  intersection_over_union, conflicts, is_suppressed, select, apply_nms,
}
use edgevision_rv1126b.Detector.Nms.Greedy.{Suppressed, apply_nms-Suppressed}

abbrev box : ℕ → ℕ → ℕ → Detection ℕ
box class score x = record {
  class_id = pos class;
  label = [];
  score = score;
  x1 = x;
  y1 = 0;
  x2 = x + 10;
  y2 = 10;
}

abbrev boxes : List (Detection ℕ)
boxes = box 1 9 0 ∷ box 1 8 0 ∷ box 2 7 0 ∷ []

one_dropped : apply_nms whole (λ ds. ds) boxes 0 (pos 0) ≡ box 1 9 0 ∷ box 2 7 0 ∷ []
unfolding apply_nms select is_suppressed conflicts intersection_over_union
one_dropped = refl

apply_nms-Suppressed_example :
    Suppressed whole boxes 0 (pos 0) (apply_nms whole (λ ds. ds) boxes 0 (pos 0))
apply_nms-Suppressed_example =
    apply_nms-Suppressed whole (λ ds. ds) boxes 0 (pos 0)
      ((refl, (refl, tt)), ((refl, tt), (tt, tt))) (λ P h. h) (λ P h. h)

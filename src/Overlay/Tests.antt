-- ===== src/Overlay/Tests.antt =====
-- Boxes on a plane of four by four pixels.
use edgevision_rv1126b.Prelude.{false, ◌≡◌, refl, true, [], ◌∷◌, some, arith, replicate}
use edgevision_rv1126b.Prelude.Int.{ℤ, pos, negsuc, ◌-ℤ◌}
use edgevision_rv1126b.Frame.{CapturedFrame}
use edgevision_rv1126b.Ai.{Detection, AiResult}
use edgevision_rv1126b.Overlay.{
  DetectionOverlay, clamp_coordinate, write, fill_n, draw_sides, draw_ring, draw_rings,
  draw_rectangle_y, create, apply,
}
use edgevision_rv1126b.Overlay.Plane.{Paints}
use edgevision_rv1126b.Overlay.Rectangle.{is_rectangle, draw_rectangle_y-Paints}
use edgevision_rv1126b.Overlay.Application.{Applies, apply-Applies}
use edgevision_rv1126b.Overlay.Freshness.{updates, drawn, apply-updates}

-- A rectangle that reaches over the left and the lower edge of the plane.
corner_box :
    draw_rectangle_y (replicate 16 0) (pos 4) (pos 4) (negsuc 2) (pos 1) (pos 2) (pos 9) (pos 1) 7
    ≡ some (0 ∷ 0 ∷ 0 ∷ 0 ∷ 7 ∷ 7 ∷ 7 ∷ 0 ∷ 7 ∷ 0 ∷ 7 ∷ 0 ∷ 7 ∷ 7 ∷ 7 ∷ 0 ∷ [])
unfolding draw_rectangle_y draw_rings draw_ring draw_sides fill_n write clamp_coordinate ◌-ℤ◌
corner_box = refl

draw_rectangle_y-Paints_example :
    Paints 4 (replicate 24 0) (is_rectangle 4 4 (negsuc 2) (pos 1) (pos 2) (pos 9) 1) 7 (
      draw_rectangle_y
        (replicate 24 0)
        (pos 4)
        (pos 4)
        (negsuc 2)
        (pos 1)
        (pos 2)
        (pos 9)
        (pos 1)
        7)
draw_rectangle_y-Paints_example =
    draw_rectangle_y-Paints 4 4 (replicate 24 0) (negsuc 2) (pos 1) (pos 2) (pos 9) (pos 1) 7
      (omega arith) (omega arith) (omega arith)

abbrev found : Detection ℤ
found = record {
  class_id = pos 0;
  label = [];
  score = pos 1;
  x1 = pos 0;
  y1 = pos 0;
  x2 = pos 3;
  y2 = pos 2;
}

abbrev result : AiResult ℤ
result = record {
  valid = true;
  frame_sequence = 5;
  capture_time_us = 0;
  backend = [];
  note = [];
  detections = found ∷ [];
}

abbrev shown : DetectionOverlay ℤ
shown = record {
  enabled = true;
  box_thickness = pos 1;
  stale_frame_window = pos 3;
  snapshot = record { valid = true; frame_sequence = 5; detections = found ∷ [] };
}

abbrev frame : CapturedFrame
frame = record {
  sequence = 6;
  capture_time_us = 0;
  width = pos 4;
  height = pos 4;
  nv12 = replicate 24 0;
}

apply-Applies_example : Applies (λ x. x) shown frame (apply (λ x. x) shown frame)
apply-Applies_example = apply-Applies (λ x. x) shown frame

apply-updates_example :
    apply
      (λ x. x)
      (updates (create true (pos 1) (pos 3)) (record result { valid = false } ∷ result ∷ []))
      frame
    ≡ drawn (λ x. x) (pos 1) (pos 3) frame true (some result)
apply-updates_example =
    apply-updates (λ x. x) (pos 1) (pos 3) frame true
      (record result { valid = false } ∷ result ∷ [])

-- ===== src/Overlay.antt =====
-- camera/src/DetectionOverlay.cpp: the boxes that are drawn on the Y plane of an NV12 frame. A write
-- outside of the frame's bytes is undefined behaviour, and gives `none`.
pub mod Plane
pub mod Rings
pub mod Rectangle
pub mod Boxes
pub mod Application
pub mod Freshness
mod Tests
use edgevision_rv1126b.Prelude.{
  ℕ, zero, suc, ◌+◌, ◌-◌, ◌*◌, Bool, true, false, ◌&&◌, ◌||◌, not, List, [], ◌∷◌, Option, none,
  some, ltb, leb, ◌==◌, if◌then◌else◌, length, set, is_empty, ◌>>=◌,
}
use edgevision_rv1126b.Prelude.Int.{ℤ, pos, negsuc, pos_part, ltb_ℤ, ◌+ℤ◌, ◌-ℤ◌}
use edgevision_rv1126b.Frame.{CapturedFrame}
use edgevision_rv1126b.Ai.{Detection, AiResult}

abbrev pub outline_luma : ℕ
outline_luma = 24

abbrev pub box_luma : ℕ
box_luma = 235

abbrev pub min_ℤ : ℤ → ℤ → ℤ
min_ℤ a b = if ltb_ℤ b a then b else a

abbrev pub max_ℤ : ℤ → ℤ → ℤ
max_ℤ a b = if ltb_ℤ a b then b else a

unfoldable pub clamp_coordinate : ℤ → ℤ → ℤ → ℤ
clamp_coordinate value lower upper =
    if ltb_ℤ upper lower then lower else max_ℤ lower (min_ℤ value upper)

unfoldable pub write : List ℕ → ℕ → ℕ → Option (List ℕ)
write plane i luma = if ltb i (length plane) then some (set plane i luma) else none

-- `std::fill_n(y_plane + start, n, luma)`.
unfoldable pub fill_n : List ℕ → ℕ → ℕ → ℕ → Option (List ℕ)
unfolding write
fill_n plane start zero luma = some plane
fill_n plane start (suc n) luma =
    write plane start luma >>= λ after. fill_n after (start + 1) n luma

-- The inner loop, on `n` rows from `row` on.
unfoldable pub draw_sides : ℕ → List ℕ → ℕ → ℕ → ℕ → ℕ → ℕ → Option (List ℕ)
unfolding write
draw_sides zero plane width row left_col right_col luma = some plane
draw_sides (suc n) plane width row left_col right_col luma =
    write plane (row * width + left_col) luma >>= λ left_done.
    write left_done (row * width + right_col) luma >>= λ both_done.
    draw_sides n both_done width (row + 1) left_col right_col luma

-- One round of the loop over `offset`.
unfoldable pub draw_ring : List ℕ → ℕ → ℕ → ℕ → ℕ → ℕ → ℕ → Option (List ℕ)
unfolding fill_n draw_sides
draw_ring plane width top_row bottom_row left_col right_col luma =
    fill_n plane (top_row * width + left_col) (right_col - left_col + 1) luma >>= λ above.
    (if bottom_row == top_row
      then some above
      else fill_n above (bottom_row * width + left_col) (right_col - left_col + 1) luma)
    >>= λ below. draw_sides (bottom_row - top_row + 1) below width top_row left_col right_col luma

-- The loop over `offset`, with the rounds that are left. The coordinates are not negative, and
-- `top_row > bottom_row` is `top + offset > bottom - offset` in `int`.
unfoldable pub draw_rings : ℕ → ℕ → List ℕ → ℕ → ℕ → ℕ → ℕ → ℕ → ℕ → Option (List ℕ)
unfolding draw_ring
draw_rings zero offset plane width top bottom left right luma = some plane
draw_rings (suc rounds) offset plane width top bottom left right luma =
    let further =
      draw_ring plane width (top + offset) (bottom - offset) (left + offset) (right - offset) luma
      >>= λ after. draw_rings rounds (offset + 1) after width top bottom left right luma in
    if ltb bottom (top + offset + offset) || ltb right (left + offset + offset)
    then some plane
    else further

-- `drawRectangleY`; the plane is never null.
unfoldable pub draw_rectangle_y : List ℕ → ℤ → ℤ → ℤ → ℤ → ℤ → ℤ → ℤ → ℕ → Option (List ℕ)
unfolding clamp_coordinate draw_rings
draw_rectangle_y plane width height x1 y1 x2 y2 thickness luma =
    let left = clamp_coordinate (min_ℤ x1 x2) (pos 0) (width -ℤ pos 1) in
    let right = clamp_coordinate (max_ℤ x1 x2) (pos 0) (width -ℤ pos 1) in
    let top = clamp_coordinate (min_ℤ y1 y2) (pos 0) (height -ℤ pos 1) in
    let bottom = clamp_coordinate (max_ℤ y1 y2) (pos 0) (height -ℤ pos 1) in
    if not (ltb_ℤ (pos 0) width) || (not (ltb_ℤ (pos 0) height) || not (ltb_ℤ (pos 0) thickness))
    then some plane
    else if not (ltb_ℤ left right) || not (ltb_ℤ top bottom)
    then some plane
    else draw_rings (pos_part thickness) 0 plane (pos_part width) (pos_part top) (pos_part bottom)
        (pos_part left) (pos_part right) luma

-- The outline and the box between two corners.
unfoldable pub draw_corners : List ℕ → ℤ → ℤ → ℤ → ℤ → ℤ → ℤ → ℤ → ℤ → Option (List ℕ)
unfolding draw_rectangle_y
draw_corners plane width height thickness outline_thickness x1 y1 x2 y2 =
    if not (ltb_ℤ x1 x2) || not (ltb_ℤ y1 y2)
    then some plane
    else (draw_rectangle_y plane width height (x1 -ℤ pos 1) (y1 -ℤ pos 1) (x2 +ℤ pos 1)
          (y2 +ℤ pos 1) outline_thickness outline_luma
        >>= λ outlined. draw_rectangle_y outlined width height x1 y1 x2 y2 thickness box_luma)

pub record Snapshot (F : Type 0) : Type 0 where
  pub valid : Bool
  pub frame_sequence : ℕ
  pub detections : List (Detection F)

pub record DetectionOverlay (F : Type 0) : Type 0 where
  pub enabled : Bool
  pub box_thickness : ℤ
  pub stale_frame_window : ℤ
  pub snapshot : Snapshot F

module _ {F : Type 0} where
  -- The constructor.
  unfoldable pub create : Bool → ℤ → ℤ → DetectionOverlay F
  create enabled box_thickness stale_frame_window = record {
    enabled = enabled;
    box_thickness = max_ℤ (pos 1) box_thickness;
    stale_frame_window = max_ℤ (pos 1) stale_frame_window;
    snapshot = record { valid = false; frame_sequence = 0; detections = [] };
  }

  unfoldable pub update : DetectionOverlay F → AiResult F → DetectionOverlay F
  update overlay result =
      if not overlay.enabled || not result.valid then overlay else record overlay {
        snapshot = record {
          valid = true;
          frame_sequence = result.frame_sequence;
          detections = result.detections;
        };
      }

  -- The test of `apply` for a snapshot that is to be drawn on the frame.
  unfoldable pub is_fresh : DetectionOverlay F → CapturedFrame → Bool
  is_fresh overlay frame =
      overlay.snapshot.valid
      && (not (ltb frame.sequence overlay.snapshot.frame_sequence)
          && not (
              ltb (pos_part overlay.stale_frame_window)
                (frame.sequence - overlay.snapshot.frame_sequence)))

-- `rounded` is `static_cast<int>(std::lround(x))`.
module _ {F : Type 0} (rounded : F → ℤ) where
  -- The body of the loop over the detections.
  unfoldable pub draw_box : List ℕ → ℤ → ℤ → ℤ → ℤ → Detection F → Option (List ℕ)
  unfolding draw_corners
  draw_box plane width height thickness outline_thickness detection =
      let max_x = width -ℤ pos 1 in
      let max_y = height -ℤ pos 1 in
      draw_corners plane width height thickness outline_thickness
        (clamp_coordinate (rounded detection.x1) (pos 0) max_x)
        (clamp_coordinate (rounded detection.y1) (pos 0) max_y)
        (clamp_coordinate (rounded detection.x2) (pos 0) max_x)
        (clamp_coordinate (rounded detection.y2) (pos 0) max_y)

  unfoldable pub draw_boxes : List ℕ → ℤ → ℤ → ℤ → ℤ → List (Detection F) → Option (List ℕ)
  unfolding draw_box
  draw_boxes plane width height thickness outline_thickness [] = some plane
  draw_boxes plane width height thickness outline_thickness (detection ∷ detections) =
      draw_box plane width height thickness outline_thickness detection >>= λ after.
      draw_boxes after width height thickness outline_thickness detections

  unfoldable pub draw_detections :
      DetectionOverlay F → List ℕ → ℤ → ℤ → List (Detection F) → Option (List ℕ)
  unfolding draw_boxes
  draw_detections overlay nv12 width height detections =
      let thickness = max_ℤ (pos 1) (min_ℤ overlay.box_thickness (min_ℤ width height)) in
      let outline_thickness = min_ℤ (thickness +ℤ pos 1) (min_ℤ width height) in
      if is_empty detections || ltb (length nv12) (pos_part width * pos_part height)
      then some nv12
      else draw_boxes nv12 width height thickness outline_thickness detections

  unfoldable pub apply : DetectionOverlay F → CapturedFrame → Option CapturedFrame
  unfolding draw_detections is_fresh
  apply overlay frame =
      if not overlay.enabled
        || (is_empty frame.nv12
            || (not (ltb_ℤ (pos 0) frame.width) || not (ltb_ℤ (pos 0) frame.height)))
      then some frame
      else if is_fresh overlay frame
      then (draw_detections overlay frame.nv12 frame.width frame.height overlay.snapshot.detections
          >>= λ nv12. some (record frame { nv12 = nv12 }))
      else some frame

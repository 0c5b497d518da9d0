-- ===== src/Overlay/Application.antt =====
-- `apply` on a whole frame.
use native.Mathlib.Nat.{mul_comm}
use edgevision_rv1126b.Prelude.{
  ℕ, ◌*◌, ◌≤◌, ◌<◌, ◌≡◌, refl, Bool, true, false, ◌&&◌, ◌||◌, not, List, [], ◌∷◌, Option, some,
  arith, ltb, length, ◌>>=◌, if-intro, is_empty, le_of_ltb,
}
use edgevision_rv1126b.Prelude.Int.{ℤ, pos, negsuc, pos_part, ltb_ℤ, ◌-ℤ◌, ◌+ℤ◌}
use edgevision_rv1126b.Frame.{CapturedFrame}
use edgevision_rv1126b.Ai.{Detection}
use edgevision_rv1126b.Overlay.{
  min_ℤ, max_ℤ, clamp_coordinate, DetectionOverlay, draw_box, draw_boxes, draw_detections, is_fresh,
  apply,
}
use edgevision_rv1126b.Overlay.Boxes.{
  Touched, Touched-refl, Touches, Touches-bind, draw_corners-Touches,
}

module _ {F : Type 0} (rounded : F → ℤ) where
  draw_box-Touches :
      (w h : ℕ) (old : List ℕ) (thickness outline : ℤ) (detection : Detection F)
      → 0 < w
      → 0 < h
      → h * w ≤ length old
      → Touches (h * w) old (draw_box rounded old (pos w) (pos h) thickness outline detection)
  unfolding draw_box
  draw_box-Touches w h old thickness outline detection hw hh size =
      draw_corners-Touches w h old thickness outline
        (clamp_coordinate (rounded detection.x1) (pos 0) (pos w -ℤ pos 1))
        (clamp_coordinate (rounded detection.y1) (pos 0) (pos h -ℤ pos 1))
        (clamp_coordinate (rounded detection.x2) (pos 0) (pos w -ℤ pos 1))
        (clamp_coordinate (rounded detection.y2) (pos 0) (pos h -ℤ pos 1)) hw hh size

  draw_boxes-Touches :
      (w h : ℕ) (old : List ℕ) (thickness outline : ℤ) (detections : List (Detection F))
      → 0 < w
      → 0 < h
      → h * w ≤ length old
      → Touches (h * w) old (draw_boxes rounded old (pos w) (pos h) thickness outline detections)
  unfolding draw_boxes
  draw_boxes-Touches w h old thickness outline [] hw hh size = (old, refl, Touched-refl (h * w) old)
  draw_boxes-Touches w h old thickness outline (detection ∷ detections) hw hh size =
      Touches-bind (h * w) old (draw_box rounded old (pos w) (pos h) thickness outline detection)
        (λ after. draw_boxes rounded after (pos w) (pos h) thickness outline detections)
        (draw_box-Touches w h old thickness outline detection hw hh size)
        (λ mid same.
          draw_boxes-Touches w h mid thickness outline detections hw hh (omega (arith, same)))

  draw_detections-Touches :
      (overlay : DetectionOverlay F) (w h : ℕ) (old : List ℕ) (detections : List (Detection F))
      → 0 < w
      → 0 < h
      → Touches (h * w) old (draw_detections rounded overlay old (pos w) (pos h) detections)
  unfolding draw_detections
  draw_detections-Touches overlay w h old detections hw hh =
      if-intro (Touches (h * w) old) (is_empty detections || ltb (length old) (w * h))
        (λ nothing. (old, refl, Touched-refl (h * w) old))
        (λ some_left.
          draw_boxes-Touches w h old
            (max_ℤ (pos 1) (min_ℤ overlay.box_thickness (min_ℤ (pos w) (pos h))))
            (min_ℤ (max_ℤ (pos 1) (min_ℤ overlay.box_thickness (min_ℤ (pos w) (pos h))) +ℤ pos 1)
              (min_ℤ (pos w) (pos h)))
            detections hw hh
            (enough (is_empty detections) (ltb (length old) (w * h)) some_left refl))
    where
      enough : (e l : Bool) → (e || l) ≡ false → ltb (length old) (w * h) ≡ l → h * w ≤ length old
      enough true l q t = cc
      enough false true q t = cc
      enough false false q t = omega (arith, mul_comm w h, le_of_ltb (length old) (w * h) t)

  -- `draw_detections` on dimensions that pass the test of `apply`.
  positive-Touches :
      (overlay : DetectionOverlay F) (width height : ℤ) (old : List ℕ)
      (detections : List (Detection F))
      → ltb_ℤ (pos 0) width ≡ true
      → ltb_ℤ (pos 0) height ≡ true
      → Touches
          (pos_part height * pos_part width)
          old
          (draw_detections rounded overlay old width height detections)
  positive-Touches overlay (pos w) (pos h) old detections hw hh =
      draw_detections-Touches overlay w h old detections (ground arith) (ground arith)
  positive-Touches overlay (pos w) (negsuc h) old detections hw hh = absurd (ground arith)
  positive-Touches overlay (negsuc w) height old detections hw hh = absurd (ground arith)

  -- The frame that `apply` leaves.
  pub record Applied (overlay : DetectionOverlay F) (frame after : CapturedFrame) : Type 0 where
    pub touched : Touched (pos_part frame.height * pos_part frame.width) frame.nv12 after.nv12
    pub others : after ≡ record frame { nv12 = after.nv12 }
    pub untouched : (overlay.enabled && is_fresh overlay frame) ≡ false → after ≡ frame

  abbrev pub Applies : DetectionOverlay F → CapturedFrame → Option CapturedFrame → Type 0
  Applies overlay frame step =
      (after : CapturedFrame) × (step ≡ some after) × Applied overlay frame after

  unchanged :
      (overlay : DetectionOverlay F) (frame : CapturedFrame) → Applies overlay frame (some frame)
  unchanged overlay frame = (
    frame,
    refl,
    record { touched = Touched-refl _ frame.nv12; others = refl; untouched = λ e. refl },
  )

  drawn :
      (overlay : DetectionOverlay F) (frame : CapturedFrame) (step : Option (List ℕ))
      → (overlay.enabled && is_fresh overlay frame) ≡ true
      → Touches (pos_part frame.height * pos_part frame.width) frame.nv12 step
      → Applies overlay frame (step >>= λ nv12. some (record frame { nv12 = nv12 }))
  drawn overlay frame step fresh (new, e, t) = (
    record frame { nv12 = new },
    rw e refl,
    record { touched = t; others = refl; untouched = λ n. cc },
  )

  gate :
      (e i w h : Bool)
      → (not e || (i || (not w || not h))) ≡ false
      → (e ≡ true) × (w ≡ true) × (h ≡ true)
  gate e i w h passed = ground arith

  -- `apply` never writes outside of the frame's bytes, whatever detections, dimensions and sizes come
  -- together; it keeps the size, the sequence number, the time and the dimensions of the frame and
  -- every byte behind the `width * height` of its Y plane, and a byte that it changes gets one of the
  -- two lumas; with the overlay disabled or its snapshot not fresh, the frame stays as it is.
  pub apply-Applies :
      (overlay : DetectionOverlay F) (frame : CapturedFrame)
      → Applies overlay frame (apply rounded overlay frame)
  unfolding apply
  apply-Applies overlay frame =
      if-intro (Applies overlay frame)
        (not overlay.enabled
          || (is_empty frame.nv12
              || (not (ltb_ℤ (pos 0) frame.width) || not (ltb_ℤ (pos 0) frame.height))))
        (λ refused. unchanged overlay frame)
        (λ passed.
          let (on, hw, hh) =
            gate overlay.enabled (is_empty frame.nv12) (ltb_ℤ (pos 0) frame.width)
              (ltb_ℤ (pos 0) frame.height) passed in
          if-intro (Applies overlay frame) (is_fresh overlay frame)
            (λ fresh.
              drawn overlay frame
                (draw_detections rounded overlay frame.nv12 frame.width frame.height
                  overlay.snapshot.detections)
                (rw (on, fresh))
                (positive-Touches overlay frame.width frame.height frame.nv12
                  overlay.snapshot.detections hw hh))
            (λ stale. unchanged overlay frame))

-- ===== src/Overlay/Freshness.antt =====
-- Which frames `apply` draws a detection result on, and which result.
use edgevision_rv1126b.Prelude.{
  ◌+◌, ◌≡◌, refl, ap, ap₂, ◌∙◌, Bool, true, false, ◌&&◌, ◌||◌, not, arith, leb, max, List, [], ◌∷◌,
  Option, none, some, if◌then◌else◌, ◌>>=◌, is_empty,
}
use edgevision_rv1126b.Prelude.Int.{ℤ, pos, negsuc, pos_part, ltb_ℤ}
use edgevision_rv1126b.Frame.{CapturedFrame}
use edgevision_rv1126b.Ai.{AiResult}
use edgevision_rv1126b.Overlay.{
  DetectionOverlay, create, update, is_fresh, apply, draw_detections, max_ℤ,
}

window_size : (z : ℤ) → pos_part (max_ℤ (pos 1) z) ≡ max 1 (pos_part z)
window_size (pos n) = ground arith
window_size (negsuc n) = ground arith

abbrev pub has_pixels : CapturedFrame → Bool
has_pixels frame =
    not (is_empty frame.nv12) && (ltb_ℤ (pos 0) frame.width && ltb_ℤ (pos 0) frame.height)

-- The tests of `apply`, put together.
tests_together :
    {A : Type 0} (no_bytes wide high fresh : Bool) (kept drew : A)
    → (if not true || (no_bytes || (not wide || not high))
        then kept
        else if fresh
        then drew
        else kept)
      ≡ (if (true && (not no_bytes && (wide && high))) && fresh then drew else kept)
tests_together true wide high fresh kept drew = refl
tests_together false false high fresh kept drew = refl
tests_together false true false fresh kept drew = refl
tests_together false true true fresh kept drew = refl

module _ {F : Type 0} where
  -- The calls of `update`, in order.
  abbrev pub updates : DetectionOverlay F → List (AiResult F) → DetectionOverlay F
  updates overlay [] = overlay
  updates overlay (result ∷ results) = updates (update overlay result) results

  -- The last result that is valid.
  abbrev pub last_valid : Option (AiResult F) → List (AiResult F) → Option (AiResult F)
  last_valid latest [] = latest
  last_valid latest (result ∷ results) =
      last_valid (if result.valid then some result else latest) results

  -- The frames from that of the result on, as many further ones as the window says, one at least.
  abbrev pub in_window : ℤ → AiResult F → CapturedFrame → Bool
  in_window window result frame =
      leb result.frame_sequence frame.sequence
      && leb frame.sequence (result.frame_sequence + max 1 (pos_part window))

  -- A new overlay that has been given the result last.
  abbrev given : Bool → ℤ → ℤ → Option (AiResult F) → DetectionOverlay F
  given enabled box_thickness window none = create enabled box_thickness window
  given enabled box_thickness window (some result) = record (create enabled box_thickness window) {
    snapshot = record {
      valid = true;
      frame_sequence = result.frame_sequence;
      detections = result.detections;
    };
  }

  update-given :
      (box_thickness window : ℤ) (latest : Option (AiResult F)) (result : AiResult F)
      → update (given true box_thickness window latest) result
        ≡ given true box_thickness window (if result.valid then some result else latest)
  unfolding update create
  update-given box_thickness window none result = ground arith
  update-given box_thickness window (some before) result = ground arith

  updates-given :
      (box_thickness window : ℤ) (latest : Option (AiResult F)) (results : List (AiResult F))
      → updates (given true box_thickness window latest) results
        ≡ given true box_thickness window (last_valid latest results)
  updates-given box_thickness window latest [] = refl
  updates-given box_thickness window latest (result ∷ results) =
      ap (λ o. updates o results) (update-given box_thickness window latest result)
      ∙ updates-given box_thickness window (if result.valid then some result else latest) results

  updates-disabled :
      (box_thickness window : ℤ) (results : List (AiResult F))
      → updates (create false box_thickness window) results ≡ create false box_thickness window
  unfolding update create
  updates-disabled box_thickness window [] = refl
  updates-disabled box_thickness window (result ∷ results) =
      updates-disabled box_thickness window results

  module _ (rounded : F → ℤ) (box_thickness window : ℤ) (frame : CapturedFrame) where
    -- The frame with the boxes of the result, if there is one and the frame is in its window.
    abbrev pub drawn : Bool → Option (AiResult F) → Option CapturedFrame
    drawn enabled none = some frame
    drawn enabled (some result) =
        if (enabled && has_pixels frame) && in_window window result frame
        then (draw_detections rounded (create enabled box_thickness window) frame.nv12 frame.width
              frame.height result.detections
            >>= λ nv12. some (record frame { nv12 = nv12 }))
        else some frame

    same_boxes :
        (result : AiResult F)
        → draw_detections rounded
            (given true box_thickness window (some result))
            frame.nv12
            frame.width
            frame.height
            result.detections
          ≡ draw_detections rounded
              (create true box_thickness window)
              frame.nv12
              frame.width
              frame.height
              result.detections
    unfolding draw_detections create
    same_boxes result = refl

    is_fresh-given :
        (result : AiResult F)
        → is_fresh (given true box_thickness window (some result)) frame
          ≡ in_window window result frame
    unfolding is_fresh create
    is_fresh-given result = ground (arith, window_size window)

    apply-given :
        (latest : Option (AiResult F))
        → apply rounded (given true box_thickness window latest) frame ≡ drawn true latest
    unfolding apply create is_fresh
    apply-given none = ground arith
    apply-given (some result) =
        tests_together (is_empty frame.nv12) (ltb_ℤ (pos 0) frame.width)
          (ltb_ℤ (pos 0) frame.height)
          (is_fresh (given true box_thickness window (some result)) frame) (some frame) _
        ∙ ap₂
            (λ fresh painted.
              if (true && has_pixels frame) && fresh
              then (painted >>= λ nv12. some (record frame { nv12 = nv12 }))
              else some frame)
            (is_fresh-given result) (same_boxes result)

    -- However often a new overlay is updated: `apply` draws the boxes of the last valid result, and of no
    -- other, on the frames from that of the result on, as many further ones as the window says, one at
    -- least. Every other frame is left as it is, and so is each frame if no result was valid, if the overlay
    -- is disabled, or if the frame has no pixels.
    pub apply-updates :
        (enabled : Bool) (results : List (AiResult F))
        → apply rounded (updates (create enabled box_thickness window) results) frame
          ≡ drawn enabled (last_valid none results)
    unfolding apply create
    apply-updates false results =
        ap (λ o. apply rounded o frame) (updates-disabled box_thickness window results)
        ∙ off (last_valid none results)
      where
        off : (latest : Option (AiResult F)) → some frame ≡ drawn false latest
        off none = refl
        off (some result) = refl
    apply-updates true results =
        ap (λ o. apply rounded o frame) (updates-given box_thickness window none results)
        ∙ apply-given (last_valid none results)

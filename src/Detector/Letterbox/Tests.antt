-- ===== src/Detector/Letterbox/Tests.antt =====
-- Runs of the preprocessing on a frame of two by two pixels, in whole numbers.
use edgevision_rv1126b.Prelude.{ℕ, ◌≡◌, refl, List, some, arith}
use edgevision_rv1126b.Prelude.Int.{pos, negsuc}
use edgevision_rv1126b.Floats.Samples.{whole}
use edgevision_rv1126b.Detector.Letterbox.Samples.{frame, frame-IsNv12, info, info_of_frame}
use edgevision_rv1126b.Detector.Letterbox.{rgb_of, shr8, fill_letterboxed_rgb}
use edgevision_rv1126b.Detector.Letterbox.Box.{Letterboxed, fill_letterboxed_rgb-Letterboxed}

-- Black, white, and the red of BT.601.
black : rgb_of 16 128 128 ≡ record { r = 0; g = 0; b = 0 }
unfolding rgb_of
black = refl

white : rgb_of 235 128 128 ≡ record { r = 255; g = 255; b = 255 }
unfolding rgb_of
white = refl

red : rgb_of 81 90 240 ≡ record { r = 255; g = 0; b = 0 }
unfolding rgb_of
red = refl

rounds_down : shr8 (negsuc 0) ≡ negsuc 0
unfolding shr8
rounds_down = refl

fill_letterboxed_rgb-Letterboxed_example :
    (rgb : List ℕ) × (fill_letterboxed_rgb whole frame (pos 4) (pos 6) ≡ some (rgb, info))
    × Letterboxed whole frame 2 4 6 0 1 4 4 rgb
fill_letterboxed_rgb-Letterboxed_example =
    fill_letterboxed_rgb-Letterboxed whole frame 2 2 4 6 info 4 4 frame-IsNv12 info_of_frame refl
      refl (omega arith) (omega arith) (λ i. ground arith)

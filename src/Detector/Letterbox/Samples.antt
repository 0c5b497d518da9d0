-- ===== src/Detector/Letterbox/Samples.antt =====
-- A frame of two by two pixels, and its letterbox in four by six.
use edgevision_rv1126b.Prelude.{◌≡◌, refl, [], ◌∷◌, arith}
use edgevision_rv1126b.Prelude.Int.{pos, ◌-ℤ◌}
use edgevision_rv1126b.Frame.{CapturedFrame}
use edgevision_rv1126b.Floats.Samples.{whole}
use edgevision_rv1126b.Detector.Letterbox.{LetterboxInfo, letterbox_info}
use edgevision_rv1126b.Detector.Letterbox.Colors.{IsNv12}

abbrev pub frame : CapturedFrame
frame = record {
  sequence = 1;
  capture_time_us = 0;
  width = pos 2;
  height = pos 2;
  nv12 = 16 ∷ 235 ∷ 81 ∷ 145 ∷ 128 ∷ 128 ∷ [];
}

pub frame-IsNv12 : IsNv12 2 2 frame
frame-IsNv12 = record {
  has_width = refl;
  has_height = refl;
  some_width = omega arith;
  some_height = omega arith;
  even_width = refl;
  even_height = refl;
  all_bytes = omega arith;
}

abbrev pub info : LetterboxInfo whole
info = record {
  scale = 2;
  pad_x = pos 0;
  pad_y = pos 1;
  resized_width = pos 4;
  resized_height = pos 4;
}

pub info_of_frame : letterbox_info whole (pos 2) (pos 2) (pos 4) (pos 6) ≡ info
unfolding letterbox_info ◌-ℤ◌
info_of_frame = refl

-- ===== src/Frame.antt =====
-- capture/include/CapturedFrame.h: the frame that the capture thread hands to the others.
use edgevision_rv1126b.Prelude.{ℕ, List, []}
use edgevision_rv1126b.Prelude.Int.{ℤ, pos}

pub record CapturedFrame : Type 0 where
  pub sequence : ℕ
  pub capture_time_us : ℕ
  pub width : ℤ
  pub height : ℤ
  pub nv12 : List ℕ

-- `CapturedFrame frame;`
abbrev pub blank : CapturedFrame
blank = record { sequence = 0; capture_time_us = 0; width = pos 0; height = pos 0; nv12 = [] }

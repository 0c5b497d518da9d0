-- ===== src/Ai.antt =====
-- ai/include/AiTypes.h, over any type `F` of floating point numbers.
use edgevision_rv1126b.Prelude.{ℕ, Bool, List}
use edgevision_rv1126b.Prelude.Int.{ℤ}

pub record Detection (F : Type 0) : Type 0 where
  pub class_id : ℤ
  pub label : List ℕ
  pub score : F
  pub x1 : F
  pub y1 : F
  pub x2 : F
  pub y2 : F

-- Without the three measured times, which nothing in the program reads but the log.
pub record AiResult (F : Type 0) : Type 0 where
  pub valid : Bool
  pub frame_sequence : ℕ
  pub capture_time_us : ℕ
  pub backend : List ℕ
  pub note : List ℕ
  pub detections : List (Detection F)

-- ===== src/Detector/Rows/Tests.antt =====
-- One row of six values: a box, a score and a class.
use edgevision_rv1126b.Prelude.{ℕ, ◌≡◌, refl, false, true, List, [], ◌∷◌, some}
use edgevision_rv1126b.Prelude.Int.{pos, ◌-ℤ◌}
use edgevision_rv1126b.Text.{ascii}
use edgevision_rv1126b.Detector.Tensor.{read_tensor_value}
use edgevision_rv1126b.Floats.Samples.{whole}
use edgevision_rv1126b.Detector.Rows.{Decoder, decode_rows}

abbrev values : List ℕ
values = 3 ∷ 4 ∷ 30 ∷ 40 ∷ 9 ∷ 1 ∷ []

abbrev decoder : Decoder whole
decoder = record {
  has_objectness = true;
  is_xyxy = true;
  score_threshold = 5;
  labels = [];
  input_width = pos 64;
  input_height = pos 64;
  pad_x = pos 0;
  pad_y = pos 0;
  scale = 1;
  frame_width = pos 20;
  frame_height = pos 20;
}

-- The box is cut at the edge of the frame.
decoded :
    decode_rows whole decoder values 1 6 false 1 0 []
    ≡ some (
        record {
          class_id = pos 1;
          label = ascii "class_1";
          score = 9;
          x1 = 3;
          y1 = 4;
          x2 = 19;
          y2 = 19;
        }
        ∷ [])
unfolding decode_rows read_tensor_value ◌-ℤ◌
decoded = refl

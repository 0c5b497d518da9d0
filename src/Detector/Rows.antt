-- ===== src/Detector/Rows.antt =====
-- `RknnDetector::infer` after the model has run: the rows of an output tensor become detections.
pub mod Bounds
mod Tests
use edgevision_rv1126b.Prelude.{
  ℕ, zero, suc, ◌+◌, ◌-◌, ◌*◌, ◌/◌, ◌%◌, Bool, true, false, ◌&&◌, ◌||◌, not, List, [], ◌∷◌, ◌++◌,
  Option, none, some, ltb, leb, ◌==◌, if◌then◌else◌, length, get_or, ◌>>=◌,
}
use edgevision_rv1126b.Prelude.Int.{ℤ, pos, negsuc, ◌-ℤ◌}
use edgevision_rv1126b.Ai.{Detection}
use edgevision_rv1126b.Floats.{Floats, fmax, fmin}
use edgevision_rv1126b.Detector.Tensor.{read_tensor_value}

-- `std::to_string`.
unfoldable pub digits : ℕ → ℕ → List ℕ
digits zero n = []
digits (suc fuel) n =
    let front = digits fuel (n / 10) in
    if ltb n 10 then (48 + n) ∷ [] else front ++ (48 + n % 10) ∷ []

unfoldable pub to_string : ℤ → List ℕ
unfolding digits
to_string (pos n) = digits (n + 1) n
to_string (negsuc n) = 45 ∷ digits (n + 2) (n + 1)

-- "class_".
abbrev pub class_prefix : List ℕ
class_prefix = b'c' ∷ b'l' ∷ b'a' ∷ b's' ∷ b's' ∷ b'_' ∷ []

unfoldable pub label_of : List (List ℕ) → ℤ → List ℕ
unfolding to_string
label_of labels (pos n) =
    if ltb n (length labels) then get_or labels n [] else class_prefix ++ to_string (pos n)
label_of labels (negsuc n) = class_prefix ++ to_string (negsuc n)

module _ (fl : Floats) where
  -- The members of `AiConfig` and `Impl` that the decoding reads, and the letterbox of the frame.
  pub record Decoder : Type 0 where
    pub has_objectness : Bool
    pub is_xyxy : Bool
    pub score_threshold : fl.Float
    pub labels : List (List ℕ)
    pub input_width : ℤ
    pub input_height : ℤ
    pub pad_x : ℤ
    pub pad_y : ℤ
    pub scale : fl.Float
    pub frame_width : ℤ
    pub frame_height : ℤ

  unfoldable pub looks_normalized : fl.Float → fl.Float → fl.Float → fl.Float → Bool
  looks_normalized a b c d =
      fl.at_most
        (fmax fl (fmax fl (fl.absolute a) (fl.absolute b))
          (fmax fl (fl.absolute c) (fl.absolute d)))
        fl.two

  abbrev pub clamp_float : fl.Float → fl.Float → fl.Float → fl.Float
  clamp_float value lower upper = fmax fl lower (fmin fl value upper)

  -- The four corners in the frame: x1, y1, x2, y2.
  pub record Corners : Type 0 where
    pub x1 : fl.Float
    pub y1 : fl.Float
    pub x2 : fl.Float
    pub y2 : fl.Float

  -- From the box of a row to the frame, without the clamp.
  unfoldable pub corners_of : Decoder → fl.Float → fl.Float → fl.Float → fl.Float → Corners
  unfolding looks_normalized
  corners_of dec b0 b1 b2 b3 =
      let normalized = looks_normalized b0 b1 b2 b3 in
      let box0 = if normalized then fl.times b0 (fl.of_int dec.input_width) else b0 in
      let box1 = if normalized then fl.times b1 (fl.of_int dec.input_height) else b1 in
      let box2 = if normalized then fl.times b2 (fl.of_int dec.input_width) else b2 in
      let box3 = if normalized then fl.times b3 (fl.of_int dec.input_height) else b3 in
      let x1 = if dec.is_xyxy then box0 else fl.minus box0 (fl.times box2 fl.half) in
      let y1 = if dec.is_xyxy then box1 else fl.minus box1 (fl.times box3 fl.half) in
      let x2 = if dec.is_xyxy then box2 else fl.plus box0 (fl.times box2 fl.half) in
      let y2 = if dec.is_xyxy then box3 else fl.plus box1 (fl.times box3 fl.half) in
      record {
        x1 = fl.divided (fl.minus x1 (fl.of_int dec.pad_x)) dec.scale;
        y1 = fl.divided (fl.minus y1 (fl.of_int dec.pad_y)) dec.scale;
        x2 = fl.divided (fl.minus x2 (fl.of_int dec.pad_x)) dec.scale;
        y2 = fl.divided (fl.minus y2 (fl.of_int dec.pad_y)) dec.scale;
      }

  -- The loop over the class scores: from `attr` on, `n` of them, the best one so far and its number;
  -- `first` is the attribute of class 0.
  unfoldable pub best_class :
      (ℕ → Option fl.Float) → ℕ → ℕ → ℕ → fl.Float → ℕ → Option (fl.Float × ℕ)
  best_class read first zero attr best best_id = some (best, best_id)
  best_class read first (suc n) attr best best_id = read attr >>= λ score.
      elim (fl.less best score) [
        | true ↦ best_class read first n (attr + 1) score (attr - first)
        | false ↦ best_class read first n (attr + 1) best best_id
      ]

  -- The score of a row of `attrs` values and its class.
  unfoldable pub score_of : Decoder → (ℕ → Option fl.Float) → ℕ → Option (fl.Float × ℤ)
  unfolding best_class
  score_of dec read attrs =
      if attrs == 5
      then (read 4 >>= λ score. some (score, pos 0))
      else if attrs == 6
      then (read 4 >>= λ score. read 5 >>= λ class. some (score, fl.round_int class))
      else if dec.has_objectness && ltb 5 attrs
      then (read 4 >>= λ objectness.
          best_class read 5 (attrs - 5) 5 fl.minus_infinity 0 >>= λ (best, id).
          some (fl.times objectness best, pos id))
      else (best_class read 4 (attrs - 4) 4 fl.minus_infinity 0 >>= λ (best, id).
          some (best, pos id))

  -- The corners within the frame.
  unfoldable pub clamp_corners : Decoder → Corners → Corners
  clamp_corners dec corners =
      let zero_f = fl.of_int (pos 0) in
      let max_x = fl.of_int (dec.frame_width -ℤ pos 1) in
      let max_y = fl.of_int (dec.frame_height -ℤ pos 1) in
      record {
        x1 = clamp_float corners.x1 zero_f max_x;
        y1 = clamp_float corners.y1 zero_f max_y;
        x2 = clamp_float corners.x2 zero_f max_x;
        y2 = clamp_float corners.y2 zero_f max_y;
      }

  -- The detection, if its box has an area.
  unfoldable pub place : Decoder → fl.Float → ℤ → Corners → Option (Detection fl.Float)
  unfolding label_of
  place dec score class_id corners =
      if fl.at_most corners.x2 corners.x1 || fl.at_most corners.y2 corners.y1
      then none
      else some (record {
        class_id = class_id;
        label = label_of dec.labels class_id;
        score = score;
        x1 = corners.x1;
        y1 = corners.y1;
        x2 = corners.x2;
        y2 = corners.y2;
      })

  -- The body of the loop over the rows. The outer `none` is a read out of bounds, the inner one a row
  -- that gives no detection.
  unfoldable pub decode_row :
      Decoder → (ℕ → Option fl.Float) → ℕ → Option (Option (Detection fl.Float))
  unfolding score_of place clamp_corners corners_of
  decode_row dec read attrs = do
    b0 ← read 0
    b1 ← read 1
    b2 ← read 2
    b3 ← read 3
    (score, class_id) ← score_of dec read attrs
    some (
        if fl.less score dec.score_threshold
        then none
        else place dec score class_id (clamp_corners dec (corners_of dec b0 b1 b2 b3)))

  abbrev pub push_found :
      List (Detection fl.Float) → Option (Detection fl.Float) → List (Detection fl.Float)
  push_found detections none = detections
  push_found detections (some detection) = detections ++ detection ∷ []

  -- The loop over the rows of one tensor: `n` of them from `row` on.
  unfoldable pub decode_rows :
      Decoder
      → List fl.Float
      → ℕ
      → ℕ
      → Bool
      → ℕ
      → ℕ
      → List (Detection fl.Float)
      → Option (List (Detection fl.Float))
  unfolding decode_row
  decode_rows dec values rows attrs attr_major zero row detections = some detections
  decode_rows dec values rows attrs attr_major (suc n) row detections =
      decode_row dec (λ attr. read_tensor_value values rows attrs attr_major row attr) attrs
      >>= λ found.
          decode_rows dec values rows attrs attr_major n (row + 1) (push_found detections found)

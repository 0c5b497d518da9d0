-- ===== src/Detector/Infer.antt =====
-- `RknnDetector::infer`: the preprocessing, the calls of the RKNN runtime, and the detections that its
-- outputs give. The answers of the runtime are inputs. `none` is an access outside of a buffer.
pub mod Outputs
pub mod Results
pub mod Whole
mod Sorting
mod Tests
use edgevision_rv1126b.Prelude.{
  ℕ, zero, suc, ◌+◌, Bool, true, false, ◌&&◌, List, [], ◌∷◌, ◌++◌, Option, none, some, ◌==◌,
  if◌then◌else◌, take, is_empty, ◌>>=◌,
}
use edgevision_rv1126b.Prelude.Int.{ℤ, pos, negsuc, pos_part}
use edgevision_rv1126b.Text.{ascii}
use edgevision_rv1126b.Frame.{CapturedFrame}
use edgevision_rv1126b.Floats.{Floats}
use edgevision_rv1126b.Ai.{Detection, AiResult}
use edgevision_rv1126b.Detector.Nms.{apply_nms}
use edgevision_rv1126b.Detector.Tensor.{Layout, infer_tensor_layout}
use edgevision_rv1126b.Detector.Rows.{to_string, Decoder, decode_rows}
use edgevision_rv1126b.Detector.Letterbox.{LetterboxInfo, fill_letterboxed_rgb}
use edgevision_rv1126b.Detector.Setup.{TensorAttr, RknnDetector, empty_result}

-- A call of the runtime, with the answer of those that the program tests. The query of the run time,
-- which only sets a measured time, is left out.
pub data RknnCall : Type 0 where
  inputs_set : List ℕ → Bool → RknnCall
  run : Bool → RknnCall
  outputs_get : Bool → RknnCall
  outputs_release : RknnCall

-- `==` of two strings.
unfoldable pub eqb_text : List ℕ → List ℕ → Bool
eqb_text [] [] = true
eqb_text (x ∷ xs) (y ∷ ys) = x == y && eqb_text xs ys
eqb_text _ _ = false

-- The dimensions with an `x` between them.
unfoldable pub joined : List ℕ → List ℕ
joined [] = []
joined (d ∷ []) = to_string (pos d)
joined (d ∷ ds) = to_string (pos d) ++ ascii "x" ++ joined ds

unfoldable pub unsupported_note : ℕ → List ℕ → List ℕ
unfolding joined to_string
unsupported_note output_index dims =
    ascii "output "
    ++ to_string (pos output_index)
    ++ ascii " layout unsupported, dims="
    ++ joined dims

module _ (fl : Floats) where
  -- What the runtime answers in one call of `infer`: whether the inputs are set, whether the model runs,
  -- and the buffer of each output, unless `rknn_outputs_get` fails; a buffer may be null.
  pub record Answers : Type 0 where
    pub is_set : Bool
    pub has_run : Bool
    pub outputs : Option (ℕ → Option (List fl.Float))

  -- What the loop over the outputs carries: `parse_note` and `detections`.
  pub record Parsed : Type 0 where
    pub note : List ℕ
    pub found : List (Detection fl.Float)

  unfoldable pub decoder_of : RknnDetector fl.Float → CapturedFrame → LetterboxInfo fl → Decoder fl
  unfolding eqb_text
  decoder_of detector frame info = record {
    has_objectness = detector.config.has_objectness;
    is_xyxy = eqb_text detector.config.box_format (ascii "xyxy");
    score_threshold = detector.config.score_threshold;
    labels = detector.impl.labels;
    input_width = detector.impl.input_width;
    input_height = detector.impl.input_height;
    pad_x = info.pad_x;
    pad_y = info.pad_y;
    scale = info.scale;
    frame_width = frame.width;
    frame_height = frame.height;
  }

  -- The rows of one tensor. A number of attributes that is negative as an `int`, which takes a dimension
  -- of 2^31, counts as an access outside of the tensor.
  unfoldable pub parse_rows : Decoder fl → Layout → Option (List fl.Float) → Parsed → Option Parsed
  unfolding decode_rows
  parse_rows dec layout none parsed = some parsed
  parse_rows dec layout (some values) parsed = elim layout.attrs [
    | negsuc n ↦ none
    | pos attrs ↦
        decode_rows fl dec values (pos_part layout.rows) attrs layout.attr_major
          (pos_part layout.rows) 0 parsed.found
        >>= λ found. some (record parsed { found = found })
  ]

  -- The body of the loop over the outputs.
  unfoldable pub parse_output :
      Decoder fl → ℕ → List ℕ → Option (List fl.Float) → Parsed → Option Parsed
  unfolding infer_tensor_layout parse_rows unsupported_note
  parse_output dec output_index dims buffer parsed = elim (infer_tensor_layout dims) [
    | none ↦ some (record parsed { note = unsupported_note output_index dims })
    | some layout ↦ parse_rows dec layout buffer parsed
  ]

  -- The loop over the outputs, from `output_index` on.
  unfoldable pub parse_outputs :
      Decoder fl → List TensorAttr → (ℕ → Option (List fl.Float)) → ℕ → Parsed → Option Parsed
  unfolding parse_output
  parse_outputs dec [] buffers output_index parsed = some parsed
  parse_outputs dec (attr ∷ attrs) buffers output_index parsed =
      parse_output dec output_index (take attr.n_dims attr.dims) (buffers output_index) parsed
      >>= λ after. parse_outputs dec attrs buffers (output_index + 1) after

  module _ (sort : List (Detection fl.Float) → List (Detection fl.Float))
      (detector : RknnDetector fl.Float) (frame : CapturedFrame) where
    -- `result.note = note; return result;`
    abbrev pub failed : List ℕ → AiResult fl.Float
    failed note = record (empty_result detector frame) { note = note }

    -- The result that the parsed outputs give.
    unfoldable pub detected : Parsed → AiResult fl.Float
    unfolding apply_nms
    detected parsed =
        let detections =
          apply_nms fl sort parsed.found detector.config.nms_threshold
            detector.config.max_results in
        record (empty_result detector frame) {
          valid = true;
          note = if is_empty detections then parsed.note else [];
          detections = detections;
        }

    -- From `rknn_outputs_get` on.
    unfoldable pub with_outputs :
        LetterboxInfo fl
        → Option (ℕ → Option (List fl.Float))
        → Option (AiResult fl.Float × List RknnCall)
    unfolding decoder_of parse_outputs detected
    with_outputs info none = some (failed (ascii "rknn_outputs_get failed"), outputs_get false ∷ [])
    with_outputs info (some buffers) =
        parse_outputs (decoder_of detector frame info) detector.impl.output_attrs buffers 0
          (record { note = []; found = [] })
        >>= λ parsed. some (detected parsed, outputs_get true ∷ outputs_release ∷ [])

    -- From `rknn_run` on.
    unfoldable pub with_run :
        LetterboxInfo fl → Answers → Bool → Option (AiResult fl.Float × List RknnCall)
    unfolding with_outputs
    with_run info answers false = some (failed (ascii "rknn_run failed"), run false ∷ [])
    with_run info answers true =
        with_outputs info answers.outputs >>= λ (result, calls). some (result, run true ∷ calls)

    -- From `rknn_inputs_set` on.
    unfoldable pub with_input :
        LetterboxInfo fl → Answers → List ℕ → Bool → Option (AiResult fl.Float × List RknnCall)
    unfolding with_run
    with_input info answers rgb false =
        some (failed (ascii "rknn_inputs_set failed"), inputs_set rgb false ∷ [])
    with_input info answers rgb true = with_run info answers answers.has_run >>= λ (result, calls).
        some (result, inputs_set rgb true ∷ calls)

    -- The result, and the calls of the runtime in order.
    unfoldable pub infer : Answers → Option (AiResult fl.Float × List RknnCall)
    unfolding fill_letterboxed_rgb with_input empty_result
    infer answers =
        if detector.initialized
        then (fill_letterboxed_rgb fl frame detector.impl.input_width detector.impl.input_height
            >>= λ (rgb, info). with_input info answers rgb answers.is_set)
        else some (empty_result detector frame, [])

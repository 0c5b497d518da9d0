-- ===== src/Detector/Infer/Tests.antt =====
-- A detector with one output of one row, on a frame of two by two pixels.
use edgevision_rv1126b.Prelude.{
  ℕ, ◌≡◌, refl, sym, ap, ◌∙◌, true, false, List, [], ◌∷◌, Option, none, some, arith, length,
}
use edgevision_rv1126b.Prelude.Int.{pos}
use edgevision_rv1126b.Text.{ascii}
use edgevision_rv1126b.Ai.{AiResult}
use edgevision_rv1126b.Floats.Samples.{whole, whole-FloatLaws}
use edgevision_rv1126b.Detector.Setup.{RknnDetector}
use edgevision_rv1126b.Detector.Letterbox.Samples.{frame, frame-IsNv12, info, info_of_frame}
use edgevision_rv1126b.Detector.Letterbox.Box.{Letterboxed}
use edgevision_rv1126b.Detector.Infer.{
  RknnCall, inputs_set, Answers, unsupported_note, decoder_of, infer,
}
use edgevision_rv1126b.Detector.Infer.Outputs.{AllHold}
use edgevision_rv1126b.Detector.Infer.Results.{Inferred}
use edgevision_rv1126b.Detector.Infer.Whole.{infer-Inferred}
use edgevision_rv1126b.Detector.Infer.Sorting.{sort, sort-IsSort, whole-IsWeakOrder}

abbrev detector : RknnDetector ℕ
detector = record {
  config = record {
    enabled = true;
    model_path = ascii "model.rknn";
    labels_path = [];
    score_threshold = 3;
    nms_threshold = 1;
    infer_every_n_frames = pos 5;
    max_results = pos 20;
    has_objectness = true;
    box_format = ascii "xyxy";
  };
  impl = record {
    context_open = true;
    output_attrs = record { n_dims = 3; dims = 1 ∷ 1 ∷ 6 ∷ []; is_nchw = false } ∷ [];
    input_width = pos 4;
    input_height = pos 6;
    input_channels = pos 3;
    labels = [];
  };
  initialized = true;
  disabled_reason = [];
}

abbrev values : List ℕ
values = 0 ∷ 1 ∷ 3 ∷ 4 ∷ 9 ∷ 1 ∷ []

abbrev answers : Answers whole
answers = record { is_set = true; has_run = true; outputs = some (λ i. some values) }

note_of_dims : unsupported_note 1 (1 ∷ 20 ∷ []) ≡ ascii "output 1 layout unsupported, dims=1x20"
unfolding unsupported_note
note_of_dims = refl

all_hold :
    (buffers : ℕ → Option (List ℕ))
    → answers.outputs ≡ some buffers
    → AllHold buffers 0 detector.impl.output_attrs
all_hold buffers e = (
  record {
    positive = omega arith;
    small = omega arith;
    full = λ vs f.
        let first : some values ≡ some vs =
          ap (λ o. elim o [ none ↦ none | some given ↦ given 0 ]) e ∙ f in
        let same : values ≡ vs = cc in ap length (sym same);
  },
  tt,
)

infer-Inferred_example :
    (result : AiResult ℕ) × (rgb : List ℕ) × (rest : List RknnCall) × (infer whole sort detector
        frame answers
      ≡ some (result, inputs_set rgb true ∷ rest))
    × Letterboxed whole frame 2 4 6 0 1 4 4 rgb
    × Inferred whole detector frame
        (decoder_of whole detector frame info)
        2
        2
        true
        result
        (inputs_set rgb true ∷ rest)
infer-Inferred_example =
    infer-Inferred whole sort detector frame 2 2 4 6 info 4 4 answers whole-FloatLaws
      (sort-IsSort 1 (pos 20)) refl refl refl frame-IsNv12 info_of_frame refl refl (omega arith)
      (omega arith) (λ i. ground arith) all_hold
      (λ buffers parsed given parses. whole-IsWeakOrder parsed.found)

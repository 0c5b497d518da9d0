-- ===== src/Detector/Setup.antt =====
-- `RknnDetector::initialize`, and what `infer` answers when that failed. The answers of the RKNN
-- runtime and the content of the label file are inputs; the program is built with the runtime.
pub mod Ready
mod Tests
use edgevision_rv1126b.Prelude.{
  ℕ, zero, suc, ◌+◌, Bool, true, false, not, List, [], ◌∷◌, ◌++◌, Option, none, some, ltb, ◌==◌,
  if◌then◌else◌, get_or, is_empty, replicate,
}
use edgevision_rv1126b.Prelude.Int.{ℤ, pos}
use edgevision_rv1126b.Text.{ascii}
use edgevision_rv1126b.Ai.{AiResult}
use edgevision_rv1126b.Frame.{CapturedFrame}
use edgevision_rv1126b.Detector.Labels.{load_labels}
use edgevision_rv1126b.Detector.Tensor.{int_of}
use edgevision_rv1126b.Detector.Nms.{eqb_ℤ}
use edgevision_rv1126b.Detector.Rows.{to_string}

pub record AiConfig (F : Type 0) : Type 0 where
  pub enabled : Bool
  pub model_path : List ℕ
  pub labels_path : List ℕ
  pub score_threshold : F
  pub nms_threshold : F
  pub infer_every_n_frames : ℤ
  pub max_results : ℤ
  pub has_objectness : Bool
  pub box_format : List ℕ

-- `rknn_tensor_attr`, as far as the program reads it.
pub record TensorAttr : Type 0 where
  pub n_dims : ℕ
  pub dims : List ℕ
  pub is_nchw : Bool

-- `Impl` without the buffer of the preprocessing, which `infer` fills anew, and the number of outputs,
-- which is the length of `output_attrs`.
pub record Impl : Type 0 where
  pub context_open : Bool
  pub output_attrs : List TensorAttr
  pub input_width : ℤ
  pub input_height : ℤ
  pub input_channels : ℤ
  pub labels : List (List ℕ)

pub record RknnDetector (F : Type 0) : Type 0 where
  pub config : AiConfig F
  pub impl : Impl
  pub initialized : Bool
  pub disabled_reason : List ℕ

-- What the runtime answers: `none` where a call fails.
pub record Runtime : Type 0 where
  -- The result of `rknn_init`, 0 for RKNN_SUCC.
  pub init_ret : ℤ
  pub n_output : Option ℕ
  pub input_attr : Option TensorAttr
  pub output_attr : ℕ → Option TensorAttr
  pub label_lines : Option (List (List ℕ))

-- The dimensions of the input by its format.
unfoldable pub set_input : Impl → TensorAttr → Impl
set_input impl attr =
    let d1 = int_of (get_or attr.dims 1 0) in
    let d2 = int_of (get_or attr.dims 2 0) in
    let d3 = int_of (get_or attr.dims 3 0) in
    if attr.is_nchw
    then record impl { input_channels = d1; input_height = d2; input_width = d3 }
    else record impl { input_height = d1; input_width = d2; input_channels = d3 }

-- The attributes after `resize` and `memset`.
abbrev pub blank_attr : TensorAttr
blank_attr = record { n_dims = 0; dims = []; is_nchw = true }

-- The loop over the outputs, `n` of them from `i` on: the attributes after it, and the output whose
-- query failed.
unfoldable pub query_outputs : (ℕ → Option TensorAttr) → ℕ → ℕ → List TensorAttr × Option ℕ
query_outputs output_attr zero i = ([], none)
query_outputs output_attr (suc n) i = elim (output_attr i) [
  | none ↦ (replicate (suc n) blank_attr, some i)
  | some attr ↦ let (attrs, failed) = query_outputs output_attr n (i + 1) in (attr ∷ attrs, failed)
]

module _ {F : Type 0} where
  -- The constructor.
  unfoldable pub create : AiConfig F → RknnDetector F
  create config = record {
    config = config;
    impl = record {
      context_open = false;
      output_attrs = [];
      input_width = pos 0;
      input_height = pos 0;
      input_channels = pos 0;
      labels = [];
    };
    initialized = false;
    disabled_reason = [];
  }

  -- `disabled_reason_ = reason; return false;`
  abbrev pub refuse : RknnDetector F → List ℕ → RknnDetector F × Bool
  refuse detector reason = (record detector { disabled_reason = reason }, false)

  -- The tests of the input, once all attributes are known.
  unfoldable pub accept_input : RknnDetector F → TensorAttr → RknnDetector F × Bool
  unfolding set_input
  accept_input detector attr =
      let sized = record detector { impl = set_input detector.impl attr } in
      if ltb attr.n_dims 4
      then refuse detector (ascii "unsupported RKNN input dims")
      else if not (eqb_ℤ sized.impl.input_channels (pos 3))
      then refuse sized (ascii "current preprocessing only supports 3-channel models")
      else (record sized { initialized = true }, true)

  -- The queries of the outputs.
  unfoldable pub accept_outputs : RknnDetector F → Runtime → TensorAttr → ℕ → RknnDetector F × Bool
  unfolding query_outputs accept_input to_string
  accept_outputs detector runtime attr n_output =
      let (attrs, failed) = query_outputs runtime.output_attr n_output 0 in
      let queried = record detector { impl = record detector.impl { output_attrs = attrs } } in
      elim failed [
        | some output ↦
            refuse queried
              (ascii "RKNN_QUERY_OUTPUT_ATTR failed for output " ++ to_string (pos output))
        | none ↦ accept_input queried attr
      ]

  -- From the queries on.
  unfoldable pub query_model : RknnDetector F → Runtime → RknnDetector F × Bool
  unfolding accept_outputs
  query_model detector runtime = elim runtime.n_output [
    | none ↦ refuse detector (ascii "RKNN_QUERY_IN_OUT_NUM failed")
    | some n_output ↦ elim runtime.input_attr [
      | none ↦ refuse detector (ascii "RKNN_QUERY_INPUT_ATTR failed")
      | some attr ↦ accept_outputs detector runtime attr n_output
    ]
  ]

  unfoldable pub initialize : RknnDetector F → Runtime → RknnDetector F × Bool
  unfolding query_model load_labels
  initialize detector runtime =
      let labels = load_labels detector.config.labels_path runtime.label_lines in
      let labelled = record detector { impl = record detector.impl { labels = labels } } in
      let opened = record labelled { impl = record labelled.impl { context_open = true } } in
      if not detector.config.enabled
      then refuse detector (ascii "AI disabled by configuration")
      else if is_empty detector.config.model_path
      then refuse detector (ascii "AICAM_RKNN_MODEL is empty")
      else if not (eqb_ℤ runtime.init_ret (pos 0))
      then refuse labelled (ascii "rknn_init failed, ret=" ++ to_string runtime.init_ret)
      else query_model opened runtime

  -- The destructor, and whether it calls `rknn_destroy`.
  unfoldable pub destroy : RknnDetector F → RknnDetector F × Bool
  destroy detector = (
    record detector { impl = record detector.impl { context_open = false } },
    detector.impl.context_open,
  )

  unfoldable pub is_enabled : RknnDetector F → Bool
  is_enabled detector = detector.initialized

  unfoldable pub backend_name : RknnDetector F → List ℕ
  backend_name detector = if detector.initialized then ascii "rknn" else ascii "disabled"

  -- The result with which `infer` starts, and which it returns when the detector is not initialised.
  unfoldable pub empty_result : RknnDetector F → CapturedFrame → AiResult F
  unfolding backend_name
  empty_result detector frame = record {
    valid = false;
    frame_sequence = frame.sequence;
    capture_time_us = frame.capture_time_us;
    backend = backend_name detector;
    note = detector.disabled_reason;
    detections = [];
  }

-- ===== src/Detector/Setup/Tests.antt =====
-- A model with one output.
use edgevision_rv1126b.Prelude.{ℕ, true, none, some, [], ◌∷◌}
use edgevision_rv1126b.Prelude.Int.{pos}
use edgevision_rv1126b.Text.{ascii}
use edgevision_rv1126b.Detector.Setup.{AiConfig, Runtime, create, initialize}
use edgevision_rv1126b.Detector.Setup.Ready.{Settled, initialize-Settled}

abbrev config : AiConfig ℕ
config = record {
  enabled = true;
  model_path = ascii "model.rknn";
  labels_path = [];
  score_threshold = 35;
  nms_threshold = 45;
  infer_every_n_frames = pos 5;
  max_results = pos 20;
  has_objectness = true;
  box_format = ascii "xywh";
}

abbrev runtime : Runtime
runtime = record {
  init_ret = pos 0;
  n_output = some 1;
  input_attr = some (record { n_dims = 4; dims = 1 ∷ 3 ∷ 640 ∷ 640 ∷ []; is_nchw = true });
  output_attr = λ i. some (record { n_dims = 3; dims = 1 ∷ 84 ∷ 8400 ∷ []; is_nchw = true });
  label_lines = none;
}

initialize-Settled_example : Settled config runtime (initialize (create config) runtime)
initialize-Settled_example = initialize-Settled config runtime

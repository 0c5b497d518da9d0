-- ===== src/AppConfig.antt =====
-- camera/src/AppConfig.cpp: the configuration out of the environment. A variable is `none` or its
-- text; `atoi` and `atof` of the C library are parameters.
pub mod Repaired
mod Tests
use edgevision_rv1126b.Prelude.{
  ℕ, ◌+◌, ◌*◌, ◌^◌, ltb, leb, ◌>>=◌, Bool, true, false, not, ◌||◌, List, [], ◌∷◌, Option, none,
  some, ◌&&◌, ◌==◌, if◌then◌else◌, is_empty,
}
use edgevision_rv1126b.Prelude.Int.{ℤ, pos, negsuc, ltb_ℤ}
use edgevision_rv1126b.Text.{ascii}
use edgevision_rv1126b.Overlay.{max_ℤ}
use edgevision_rv1126b.Detector.Setup.{AiConfig}

pub record AppConfig (F : Type 0) : Type 0 where
  pub sensor_id : ℤ
  pub fps : ℤ
  pub iq_dir : List ℕ
  pub gateway_ip : List ℕ
  pub gateway_port : ℤ
  pub encode_queue_capacity : ℤ
  pub ai_queue_capacity : ℤ
  pub verbose_encode_log : Bool
  pub event_jsonl_path : List ℕ
  pub metrics_jsonl_path : List ℕ
  pub metrics_interval_sec : ℤ
  pub overlay_enable : Bool
  pub overlay_box_thickness : ℤ
  pub overlay_stale_frames : ℤ
  pub ai : AiConfig F

abbrev pub same_text : List ℕ → List ℕ → Bool
same_text [] [] = true
same_text (a ∷ s) (b ∷ t) = a == b && same_text s t
same_text _ _ = false

-- `n * 3` in `int`; `none` is an overflow, which is undefined behaviour.
unfoldable pub times_three : ℤ → Option ℤ
times_three (pos n) = if ltb (n * 3) (2 ^ 31) then some (pos (n * 3)) else none
times_three (negsuc n) = if leb (n * 3 + 3) (2 ^ 31) then some (negsuc (n * 3 + 2)) else none

-- `if (value <= 0) value = other;`
abbrev pub positive_or : ℤ → ℤ → ℤ
positive_or value other = if ltb_ℤ (pos 0) value then value else other

module _ {F : Type 0} where
  -- The new `overlay_stale_frames`, from the `infer_every_n_frames` that is not yet repaired.
  unfoldable pub stale_frames : AppConfig F → Option ℤ
  unfolding times_three
  stale_frames config =
      if ltb_ℤ (pos 0) config.overlay_stale_frames
      then some config.overlay_stale_frames
      else (times_three config.ai.infer_every_n_frames >>= λ t. some (max_ℤ (pos 30) t))

  -- The tests at the end of `fromEnvironment`.
  unfoldable pub repair : AppConfig F → Option (AppConfig F)
  unfolding stale_frames
  repair config = stale_frames config >>= λ stale. some (record config {
    metrics_interval_sec = positive_or config.metrics_interval_sec (pos 5);
    encode_queue_capacity = positive_or config.encode_queue_capacity (pos 5);
    ai_queue_capacity = positive_or config.ai_queue_capacity (pos 3);
    overlay_box_thickness = positive_or config.overlay_box_thickness (pos 4);
    overlay_stale_frames = stale;
    ai = record config.ai {
      infer_every_n_frames = positive_or config.ai.infer_every_n_frames (pos 1);
    };
  })

module _ {F : Type 0} (getenv : List ℕ → Option (List ℕ)) (atoi : List ℕ → ℤ)
    (atof : List ℕ → F) where
  unfoldable pub read_int_env : List ℕ → ℤ → ℤ
  read_int_env key default_value = elim (getenv key) [
    | none ↦ default_value
    | some value ↦ if is_empty value then default_value else atoi value
  ]

  unfoldable pub read_float_env : List ℕ → F → F
  read_float_env key default_value = elim (getenv key) [
    | none ↦ default_value
    | some value ↦ if is_empty value then default_value else atof value
  ]

  unfoldable pub read_bool_env : List ℕ → Bool → Bool
  read_bool_env key default_value = elim (getenv key) [
    | none ↦ default_value
    | some value ↦
        if is_empty value
        then default_value
        else (same_text value (ascii "1") || same_text value (ascii "true"))
          || (same_text value (ascii "TRUE") || same_text value (ascii "yes"))
  ]

  unfoldable pub read_string_env : List ℕ → List ℕ → List ℕ
  read_string_env key default_value = elim (getenv key) [
    | none ↦ default_value
    | some value ↦ value
  ]

  -- The reads of `fromEnvironment`, over the default values of the members: 0.35 and 0.45 stand for
  -- the two thresholds.
  unfoldable pub read_config : F → F → AppConfig F
  unfolding read_int_env read_float_env read_bool_env read_string_env
  read_config default_score default_nms =
      let model_path = read_string_env (ascii "AICAM_RKNN_MODEL") [] in
      record {
        sensor_id = read_int_env (ascii "AICAM_SENSOR_ID") (pos 0);
        fps = read_int_env (ascii "AICAM_FPS") (pos 30);
        iq_dir = read_string_env (ascii "AICAM_IQ_DIR") (ascii "/etc/iqfiles");
        gateway_ip = read_string_env (ascii "AICAM_GATEWAY_IP") (ascii "127.0.0.1");
        gateway_port = read_int_env (ascii "AICAM_GATEWAY_PORT") (pos 8080);
        encode_queue_capacity = read_int_env (ascii "AICAM_ENCODE_QUEUE") (pos 5);
        ai_queue_capacity = read_int_env (ascii "AICAM_AI_QUEUE") (pos 3);
        verbose_encode_log = read_bool_env (ascii "AICAM_VERBOSE_ENCODE") false;
        event_jsonl_path = read_string_env (ascii "AICAM_EVENT_JSONL") (ascii "logs/events.jsonl");
        metrics_jsonl_path =
            read_string_env (ascii "AICAM_METRICS_JSONL") (ascii "logs/metrics.jsonl");
        metrics_interval_sec = read_int_env (ascii "AICAM_METRICS_INTERVAL") (pos 5);
        overlay_enable = read_bool_env (ascii "AICAM_OVERLAY_ENABLE") true;
        overlay_box_thickness = read_int_env (ascii "AICAM_OVERLAY_THICKNESS") (pos 4);
        overlay_stale_frames = read_int_env (ascii "AICAM_OVERLAY_STALE_FRAMES") (pos 30);
        ai = record {
          enabled = read_bool_env (ascii "AICAM_AI_ENABLE") (not (is_empty model_path));
          model_path = model_path;
          labels_path = read_string_env (ascii "AICAM_LABELS") [];
          score_threshold = read_float_env (ascii "AICAM_SCORE_THRESHOLD") default_score;
          nms_threshold = read_float_env (ascii "AICAM_NMS_THRESHOLD") default_nms;
          infer_every_n_frames = read_int_env (ascii "AICAM_INFER_EVERY_N") (pos 5);
          max_results = read_int_env (ascii "AICAM_MAX_RESULTS") (pos 20);
          has_objectness = read_bool_env (ascii "AICAM_HAS_OBJECTNESS") true;
          box_format = read_string_env (ascii "AICAM_BOX_FORMAT") (ascii "xywh");
        };
      }

  unfoldable pub from_environment : F → F → Option (AppConfig F)
  unfolding read_config repair
  from_environment default_score default_nms = repair (read_config default_score default_nms)

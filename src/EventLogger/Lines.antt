-- ===== src/EventLogger/Lines.antt =====
-- `EventLogger::write` of event/src/EventLogger.cpp: the line of JSON for a result, in its pieces.
use edgevision_rv1126b.Prelude.{ℕ, Bool, List, [], ◌∷◌, ◌++◌, if◌then◌else◌}
use edgevision_rv1126b.Prelude.Int.{pos}
use edgevision_rv1126b.Text.{ascii}
use edgevision_rv1126b.Ai.{Detection, AiResult}
use edgevision_rv1126b.Detector.Rows.{to_string}
use edgevision_rv1126b.EventLogger.{escape_json}

-- What the output of a time, of a `float` and of the three measured times of the result prints.
pub record Printers (F : Type 0) : Type 0 where
  pub unix_micros : ℕ → List ℕ
  pub float : F → List ℕ
  pub preprocess_ms : List ℕ
  pub inference_ms : List ℕ
  pub postprocess_ms : List ℕ

-- The file: whether it is open, and what has been written to it.
pub record EventLogger : Type 0 where
  pub is_open : Bool
  pub written : List ℕ

abbrev pub joined_pieces : List (List ℕ) → List ℕ
joined_pieces [] = []
joined_pieces (piece ∷ pieces) = piece ++ joined_pieces pieces

module _ {F : Type 0} (out : Printers F) where
  -- One detection, before `pieces`.
  unfoldable pub detection_pieces : Detection F → List (List ℕ) → List (List ℕ)
  unfolding escape_json to_string
  detection_pieces det pieces =
      ascii "{\"class_id\":"
      ∷ to_string det.class_id
      ∷ ascii ",\"label\":\""
      ∷ escape_json det.label
      ∷ ascii "\",\"score\":"
      ∷ out.float det.score
      ∷ ascii ",\"x1\":"
      ∷ out.float det.x1
      ∷ ascii ",\"y1\":"
      ∷ out.float det.y1
      ∷ ascii ",\"x2\":"
      ∷ out.float det.x2
      ∷ ascii ",\"y2\":"
      ∷ out.float det.y2
      ∷ ascii "}"
      ∷ pieces

  -- The loop over the detections behind the first, each behind a comma, and the end.
  unfoldable pub more_pieces : List (Detection F) → List (List ℕ)
  unfolding detection_pieces
  more_pieces [] = ascii "]}" ∷ []
  more_pieces (det ∷ dets) = ascii "," ∷ detection_pieces det (more_pieces dets)

  unfoldable pub detections_pieces : List (Detection F) → List (List ℕ)
  unfolding more_pieces
  detections_pieces [] = ascii "]}" ∷ []
  detections_pieces (det ∷ dets) = detection_pieces det (more_pieces dets)

  -- The line without its end.
  unfoldable pub line_pieces : AiResult F → List (List ℕ)
  unfolding detections_pieces
  line_pieces result =
      ascii "{\"timestamp\":\""
      ∷ out.unix_micros result.capture_time_us
      ∷ ascii "\",\"frame_sequence\":"
      ∷ to_string (pos result.frame_sequence)
      ∷ ascii ",\"backend\":\""
      ∷ escape_json result.backend
      ∷ ascii "\",\"preprocess_ms\":"
      ∷ out.preprocess_ms
      ∷ ascii ",\"inference_ms\":"
      ∷ out.inference_ms
      ∷ ascii ",\"postprocess_ms\":"
      ∷ out.postprocess_ms
      ∷ ascii ",\"note\":\""
      ∷ escape_json result.note
      ∷ ascii "\",\"detections\":["
      ∷ detections_pieces result.detections

  unfoldable pub write : EventLogger → AiResult F → EventLogger
  unfolding line_pieces
  write logger result =
      if logger.is_open
      then record logger {
        written = logger.written ++ (joined_pieces (line_pieces result) ++ 10 ∷ []);
      }
      else logger

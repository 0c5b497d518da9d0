-- ===== src/EventLogger/Tests.antt =====
-- A label with a quote, a backslash and a line feed.
use edgevision_rv1126b.Prelude.{ℕ, true, ◌≡◌, refl, [], ◌∷◌, ◌++◌, some, none, inl, inr, arith}
use edgevision_rv1126b.Prelude.Int.{pos}
use edgevision_rv1126b.Text.{ascii}
use edgevision_rv1126b.Ai.{AiResult}
use edgevision_rv1126b.EventLogger.{escape_json}
use edgevision_rv1126b.EventLogger.Lines.{Printers}
use edgevision_rv1126b.EventLogger.Framing.{split_lines, write_all, lines_of, write_all-lines}
use edgevision_rv1126b.EventLogger.Escapes.{read_string, unescape, read_string-escape_json}

-- Other control characters stay as they are, which JSON does not allow.
bell_refused : read_string (escape_json (7 ∷ []) ++ 34 ∷ []) ≡ none
unfolding escape_json read_string unescape
bell_refused = refl

read_string-escape_json_example :
    read_string (escape_json (97 ∷ 34 ∷ 92 ∷ 10 ∷ []) ++ 34 ∷ 44 ∷ [])
    ≡ some (97 ∷ 34 ∷ 92 ∷ 10 ∷ [], 44 ∷ [])
read_string-escape_json_example =
    read_string-escape_json (97 ∷ 34 ∷ 92 ∷ 10 ∷ []) (44 ∷ [])
      (inl (omega arith), (inl (omega arith), (inl (omega arith), (inr (inr (inl refl)), tt))))

abbrev out : Printers ℕ
out = record {
  unix_micros = λ t. ascii "1970-01-01T00:00:00.000000Z";
  float = λ x. ascii "0.5";
  preprocess_ms = ascii "1";
  inference_ms = ascii "2";
  postprocess_ms = ascii "3";
}

-- A label with a line feed.
abbrev result : AiResult ℕ
result = record {
  valid = true;
  frame_sequence = 7;
  capture_time_us = 0;
  backend = ascii "rknn";
  note = [];
  detections =
      record { class_id = pos 1; label = 97 ∷ 10 ∷ []; score = 1; x1 = 0; y1 = 0; x2 = 1; y2 = 1 }
      ∷ [];
}

write_all-lines_example :
    split_lines []
      (write_all out (record { is_open = true; written = [] }) (result ∷ result ∷ [])).written
    ≡ lines_of out (result ∷ result ∷ [])
write_all-lines_example = write_all-lines out (result ∷ result ∷ []) (record {
  time_line = λ t. refl;
  float_line = λ x. refl;
  preprocess_line = refl;
  inference_line = refl;
  postprocess_line = refl;
})

-- ===== src/EventLogger/Framing.antt =====
-- Every result is one line of the file.
use edgevision_rv1126b.Prelude.{
  or_false, ℕ, zero, suc, ◌+◌, ◌/◌, ◌%◌, ◌≡◌, refl, Bool, true, false, ◌||◌, List, [], ◌∷◌, ◌++◌,
  All, arith, ◌==◌, ltb, if-intro, ap, sym, ◌∙◌, append-nil, append_assoc,
}
use edgevision_rv1126b.Prelude.Int.{ℤ, pos, negsuc}
use edgevision_rv1126b.Ai.{Detection, AiResult}
use edgevision_rv1126b.Detector.Rows.{digits, to_string}
use edgevision_rv1126b.EventLogger.{escape_char, escape_json}
use edgevision_rv1126b.EventLogger.Lines.{
  Printers, EventLogger, joined_pieces, detection_pieces, more_pieces, detections_pieces,
  line_pieces, write,
}

abbrev pub has_line_feed : List ℕ → Bool
has_line_feed [] = false
has_line_feed (c ∷ text) = c == 10 || has_line_feed text

abbrev pub IsOneLine : List ℕ → Type 0
IsOneLine text = has_line_feed text ≡ false

append-IsOneLine : (xs ys : List ℕ) → IsOneLine xs → IsOneLine ys → IsOneLine (xs ++ ys)
append-IsOneLine [] ys h k = k
append-IsOneLine (x ∷ xs) ys h k =
    let (other, rest) = or_false (x == 10) (has_line_feed xs) h in
    rw other (append-IsOneLine xs ys rest k)

escape_char-IsOneLine : (ch : ℕ) → IsOneLine (escape_char ch)
escape_char-IsOneLine ch =
    if-intro IsOneLine (ch == b'\\') (λ t. refl)
      (λ f.
        if-intro IsOneLine (ch == 34) (λ t. refl)
          (λ f.
            if-intro IsOneLine (ch == 10) (λ t. refl)
              (λ other.
                if-intro IsOneLine (ch == 13) (λ t. refl)
                  (λ f. if-intro IsOneLine (ch == 9) (λ t. refl) (λ f. rw other refl)))))

escape_json-IsOneLine : (text : List ℕ) → IsOneLine (escape_json text)
unfolding escape_json
escape_json-IsOneLine [] = refl
escape_json-IsOneLine (ch ∷ text) =
    append-IsOneLine (escape_char ch) (escape_json text) (escape_char-IsOneLine ch)
      (escape_json-IsOneLine text)

digits-IsOneLine : (fuel n : ℕ) → IsOneLine (digits fuel n)
unfolding digits
digits-IsOneLine zero n = refl
digits-IsOneLine (suc fuel) n =
    if-intro IsOneLine (ltb n 10) (λ t. ground arith)
      (λ f.
        append-IsOneLine (digits fuel (n / 10)) ((48 + n % 10) ∷ [])
          (digits-IsOneLine fuel (n / 10)) (ground arith))

to_string-IsOneLine : (z : ℤ) → IsOneLine (to_string z)
unfolding to_string
to_string-IsOneLine (pos n) = digits-IsOneLine (n + 1) n
to_string-IsOneLine (negsuc n) = digits-IsOneLine (n + 2) (n + 1)

joined_pieces-IsOneLine :
    (pieces : List (List ℕ)) → All IsOneLine pieces → IsOneLine (joined_pieces pieces)
joined_pieces-IsOneLine [] h = refl
joined_pieces-IsOneLine (piece ∷ pieces) (h, hs) =
    append-IsOneLine piece (joined_pieces pieces) h (joined_pieces-IsOneLine pieces hs)

-- The output of numbers and times has no line feed.
pub record PrintsOneLine {F : Type 0} (out : Printers F) : Type 0 where
  pub time_line : (t : ℕ) → IsOneLine (out.unix_micros t)
  pub float_line : (x : F) → IsOneLine (out.float x)
  pub preprocess_line : IsOneLine out.preprocess_ms
  pub inference_line : IsOneLine out.inference_ms
  pub postprocess_line : IsOneLine out.postprocess_ms

module _ {F : Type 0} (out : Printers F) (prints : PrintsOneLine out) where
  detection_pieces-All :
      (det : Detection F) (pieces : List (List ℕ))
      → All IsOneLine pieces
      → All IsOneLine (detection_pieces out det pieces)
  unfolding detection_pieces
  detection_pieces-All det pieces all = (
    refl,
    (
      to_string-IsOneLine det.class_id,
      (
        refl,
        (
          escape_json-IsOneLine det.label,
          (
            refl,
            (
              prints.float_line det.score,
              (
                refl,
                (
                  prints.float_line det.x1,
                  (
                    refl,
                    (
                      prints.float_line det.y1,
                      (
                        refl,
                        (prints.float_line det.x2, (refl, (prints.float_line det.y2, (refl, all)))),
                      ),
                    ),
                  ),
                ),
              ),
            ),
          ),
        ),
      ),
    ),
  )

  more_pieces-All : (dets : List (Detection F)) → All IsOneLine (more_pieces out dets)
  unfolding more_pieces
  more_pieces-All [] = (refl, tt)
  more_pieces-All (det ∷ dets) =
      (refl, detection_pieces-All det (more_pieces out dets) (more_pieces-All dets))

  detections_pieces-All : (dets : List (Detection F)) → All IsOneLine (detections_pieces out dets)
  unfolding detections_pieces
  detections_pieces-All [] = (refl, tt)
  detections_pieces-All (det ∷ dets) =
      detection_pieces-All det (more_pieces out dets) (more_pieces-All dets)

  line_pieces-All : (result : AiResult F) → All IsOneLine (line_pieces out result)
  unfolding line_pieces
  line_pieces-All result = (
    refl,
    (
      prints.time_line result.capture_time_us,
      (
        refl,
        (
          to_string-IsOneLine (pos result.frame_sequence),
          (
            refl,
            (
              escape_json-IsOneLine result.backend,
              (
                refl,
                (
                  prints.preprocess_line,
                  (
                    refl,
                    (
                      prints.inference_line,
                      (
                        refl,
                        (
                          prints.postprocess_line,
                          (
                            refl,
                            (
                              escape_json-IsOneLine result.note,
                              (refl, detections_pieces-All result.detections),
                            ),
                          ),
                        ),
                      ),
                    ),
                  ),
                ),
              ),
            ),
          ),
        ),
      ),
    ),
  )

-- The lines that results become.
abbrev pub lines_of : {F : Type 0} → Printers F → List (AiResult F) → List (List ℕ)
lines_of out [] = []
lines_of out (result ∷ results) = joined_pieces (line_pieces out result) ∷ lines_of out results

-- A reader that cuts a text at its line feeds; `line` is what it has read of the line so far.
abbrev pub split_lines : List ℕ → List ℕ → List (List ℕ)
split_lines line [] = []
split_lines line (c ∷ text) = elim (c == 10) [
  | true ↦ line ∷ split_lines [] text
  | false ↦ split_lines (line ++ c ∷ []) text
]

-- The results in turn.
unfoldable pub write_all : {F : Type 0} → Printers F → EventLogger → List (AiResult F) → EventLogger
unfolding write
write_all out logger [] = logger
write_all out logger (result ∷ results) = write_all out (write out logger result) results

split_lines-line :
    (front line rest : List ℕ)
    → IsOneLine line
    → split_lines front (line ++ 10 ∷ rest) ≡ (front ++ line) ∷ split_lines [] rest
split_lines-line front [] rest h = ap (λ l. l ∷ split_lines [] rest) (sym (append-nil front))
split_lines-line front (x ∷ line) rest h =
    let (other, tail) = or_false (x == 10) (has_line_feed line) h in
    rw (other, split_lines)
      (split_lines-line (front ++ x ∷ []) line rest tail
        ∙ ap (λ l. l ∷ split_lines [] rest) (append_assoc front (x ∷ []) line))

abbrev file_of : {F : Type 0} → Printers F → List (AiResult F) → List ℕ
file_of out [] = []
file_of out (result ∷ results) = joined_pieces (line_pieces out result) ++ 10 ∷ file_of out results

write_all-file :
    {F : Type 0} (out : Printers F) (text : List ℕ) (results : List (AiResult F))
    → (write_all out (record { is_open = true; written = text }) results).written
      ≡ text ++ file_of out results
unfolding write_all
write_all-file out text [] = sym (append-nil text)
write_all-file out text (result ∷ results) =
    let line = joined_pieces (line_pieces out result) in
    write_all-file out (text ++ (line ++ 10 ∷ [])) results
    ∙ append_assoc text (line ++ 10 ∷ []) (file_of out results)
    ∙ ap (λ t. text ++ t) (append_assoc line (10 ∷ []) (file_of out results))

split_lines-file :
    {F : Type 0} (out : Printers F) (results : List (AiResult F))
    → PrintsOneLine out
    → split_lines [] (file_of out results) ≡ lines_of out results
split_lines-file out [] prints = refl
split_lines-file out (result ∷ results) prints =
    split_lines-line [] (joined_pieces (line_pieces out result)) (file_of out results)
      (joined_pieces-IsOneLine (line_pieces out result) (line_pieces-All out prints result))
    ∙ ap (λ ls. joined_pieces (line_pieces out result) ∷ ls) (split_lines-file out results prints)

-- However many results are written to an open log, and whatever their labels and notes are, the log cut at
-- its line feeds is the object of each result, in order: none is split and no two run together. The output
-- of numbers and times has no line feed.
pub write_all-lines :
    {F : Type 0} (out : Printers F) (results : List (AiResult F))
    → PrintsOneLine out
    → split_lines [] (write_all out (record { is_open = true; written = [] }) results).written
      ≡ lines_of out results
write_all-lines out results prints =
    ap (split_lines []) (write_all-file out [] results) ∙ split_lines-file out results prints

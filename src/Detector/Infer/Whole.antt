-- ===== src/Detector/Infer/Whole.antt =====
-- What `infer` returns, and what it asks of the runtime.
use edgevision_rv1126b.Prelude.{
  ℕ, ◌-◌, ◌/◌, ◌≤◌, ◌<◌, ◌≡◌, refl, ap, ◌∙◌, Bool, true, false, ◌&&◌, List, [], ◌∷◌, Option, none,
  some, if◌then◌else◌, ◌>>=◌,
}
use edgevision_rv1126b.Prelude.Int.{pos, ltb_ℤ}
use edgevision_rv1126b.Text.{ascii}
use edgevision_rv1126b.Frame.{CapturedFrame}
use edgevision_rv1126b.Ai.{Detection, AiResult}
use edgevision_rv1126b.Floats.{Floats, FloatLaws}
use edgevision_rv1126b.Detector.Rows.{Decoder}
use edgevision_rv1126b.Detector.Setup.{RknnDetector, TensorAttr, empty_result}
use edgevision_rv1126b.Detector.Letterbox.{LetterboxInfo, letterbox_info, fill_letterboxed_rgb}
use edgevision_rv1126b.Detector.Letterbox.Colors.{IsNv12}
use edgevision_rv1126b.Detector.Letterbox.Box.{Letterboxed, fill_letterboxed_rgb-Letterboxed}
use edgevision_rv1126b.Detector.Infer.{
  RknnCall, inputs_set, run, outputs_get, outputs_release, Answers, decoder_of, detected, failed,
  Parsed, parse_outputs, with_outputs, with_run, with_input, infer,
}
use edgevision_rv1126b.Detector.Infer.Outputs.{AllHold, parse_outputs-All}
use edgevision_rv1126b.Detector.Infer.Results.{
  IsSort, IsWeakOrder, gotten, released, is_some, Inferred, failed-Inferred, detected-Inferred,
  Inferred-cons,
}

-- The scores of the candidates that the outputs give can be sorted; a NaN among them could not be, and the
-- code, whose `score < score_threshold` is false on a NaN, would keep it.
abbrev pub Orderable :
    (fl : Floats) → Decoder fl → List TensorAttr → Option (ℕ → Option (List fl.Float)) → Type 0
Orderable fl dec attrs outputs =
    (buffers : ℕ → Option (List fl.Float)) (parsed : Parsed fl)
    → outputs ≡ some buffers
    → parse_outputs fl dec attrs buffers 0 (record { note = []; found = [] }) ≡ some parsed
    → IsWeakOrder fl parsed.found

module _ (fl : Floats) (sort : List (Detection fl.Float) → List (Detection fl.Float))
    (detector : RknnDetector fl.Float) (frame : CapturedFrame) (w h : ℕ) (info : LetterboxInfo fl)
    (float_laws : FloatLaws fl)
    (sort_laws : IsSort fl detector.config.nms_threshold detector.config.max_results sort)
    (wide : frame.width ≡ pos w) (high : frame.height ≡ pos h) (some_width : 0 < w)
    (some_height : 0 < h) where
  abbrev dec : Decoder fl
  dec = decoder_of fl detector frame info

  with_outputs-Inferred :
      (outputs : Option (ℕ → Option (List fl.Float)))
      → ((buffers : ℕ → Option (List fl.Float))
          → outputs ≡ some buffers
          → AllHold buffers 0 detector.impl.output_attrs)
      → Orderable fl dec detector.impl.output_attrs outputs
      → (result : AiResult fl.Float) × (calls : List RknnCall) × (with_outputs fl sort detector
            frame info outputs
          ≡ some (result, calls))
        × Inferred fl detector frame dec w h (is_some outputs) result calls
  unfolding with_outputs gotten released
  with_outputs-Inferred none holds ordered = (
    failed fl sort detector frame (ascii "rknn_outputs_get failed"),
    outputs_get false ∷ [],
    refl,
    failed-Inferred fl sort detector frame dec w h _ (outputs_get false ∷ []) refl refl,
  )
  with_outputs-Inferred (some buffers) holds ordered =
      let (parsed, runs, sound) =
        parse_outputs-All fl float_laws dec w h wide high some_width some_height
          detector.impl.output_attrs buffers 0 (record { note = []; found = [] })
          (holds buffers refl) tt in
      (
        detected fl sort detector frame parsed,
        outputs_get true ∷ outputs_release ∷ [],
        rw runs refl,
        detected-Inferred fl sort detector frame dec w h parsed sort_laws
            (ordered buffers parsed refl runs) sound,
      )

  module _ (answers : Answers fl)
      (holds : (buffers : ℕ → Option (List fl.Float))
        → answers.outputs ≡ some buffers
        → AllHold buffers 0 detector.impl.output_attrs)
      (ordered : Orderable fl dec detector.impl.output_attrs answers.outputs) where
    with_run-Inferred :
        (has_run : Bool)
        → (result : AiResult fl.Float) × (calls : List RknnCall) × (with_run fl sort detector frame
              info answers has_run
            ≡ some (result, calls))
          × Inferred fl detector frame dec w h (has_run && is_some answers.outputs) result calls
    unfolding with_run gotten released
    with_run-Inferred false = (
      failed fl sort detector frame (ascii "rknn_run failed"),
      run false ∷ [],
      refl,
      failed-Inferred fl sort detector frame dec w h _ (run false ∷ []) refl refl,
    )
    with_run-Inferred true =
        let (result, calls, runs, i) = with_outputs-Inferred answers.outputs holds ordered in
        (
          result,
          run true ∷ calls,
          ap (λ o. o >>= λ (r, cs). some (r, run true ∷ cs)) runs,
          Inferred-cons fl detector frame dec w h _ result (run true) calls refl refl i,
        )

    pub with_input-Inferred :
        (rgb : List ℕ) (is_set : Bool)
        → (result : AiResult fl.Float) × (rest : List RknnCall) × (with_input fl sort detector frame
              info answers rgb is_set
            ≡ some (result, inputs_set rgb is_set ∷ rest))
          × Inferred fl detector frame dec w h
              (is_set && (answers.has_run && is_some answers.outputs))
              result
              (inputs_set rgb is_set ∷ rest)
    unfolding with_input gotten released
    with_input-Inferred rgb false = (
      failed fl sort detector frame (ascii "rknn_inputs_set failed"),
      [],
      refl,
      failed-Inferred fl sort detector frame dec w h _ (inputs_set rgb false ∷ []) refl refl,
    )
    with_input-Inferred rgb true =
        let (result, calls, runs, i) = with_run-Inferred answers.has_run in
        (
          result,
          calls,
          ap (λ o. o >>= λ (r, cs). some (r, inputs_set rgb true ∷ cs)) runs,
          Inferred-cons fl detector frame dec w h _ result (inputs_set rgb true) calls refl refl i,
        )

infer-runs :
    (fl : Floats) (sort : List (Detection fl.Float) → List (Detection fl.Float))
    (detector : RknnDetector fl.Float) (frame : CapturedFrame) (answers : Answers fl)
    (columns rows : ℕ) (rgb : List ℕ) (info : LetterboxInfo fl)
    → detector.initialized ≡ true
    → detector.impl.input_width ≡ pos columns
    → detector.impl.input_height ≡ pos rows
    → fill_letterboxed_rgb fl frame (pos columns) (pos rows) ≡ some (rgb, info)
    → infer fl sort detector frame answers
      ≡ with_input fl sort detector frame info answers rgb answers.is_set
unfolding infer
infer-runs fl sort detector frame answers columns rows rgb info on is_wide is_high filled =
    let after : List ℕ × LetterboxInfo fl → Option (AiResult fl.Float × List RknnCall) =
      λ (image, box). with_input fl sort detector frame box answers image answers.is_set in
    ap
      (λ b.
        if b
        then (fill_letterboxed_rgb fl frame detector.impl.input_width detector.impl.input_height
            >>= after)
        else some (empty_result detector frame, []))
      on
    ∙ ap (λ c. fill_letterboxed_rgb fl frame c detector.impl.input_height >>= after) is_wide
    ∙ ap (λ r. fill_letterboxed_rgb fl frame (pos columns) r >>= after) is_high
    ∙ ap (λ o. o >>= after) filled

-- `infer` of an initialised detector on a frame of an even size with all of its bytes, whatever the
-- runtime answers otherwise. The conditions: the scores of the candidates that the outputs give can be
-- sorted, none of them being a NaN, and `std::sort` returns the members of such a range in descending order; the
-- scaled image is no larger than the model's input, and no quotient of a coordinate by the scale becomes
-- a negative `int`; each output buffer that is not null holds as many values as its positive dimensions
-- say, fewer than 2^31. Then no access is outside of a buffer. The first call gives the runtime the
-- letterboxed image. The result carries the number and the time of the frame. It is valid exactly if the
-- three calls succeed; if not, it has no detections and its note is not empty; if so, its detections are
-- the suppression of candidates that the decoding accepts. All its detections lie in the frame, and the
-- outputs are released exactly if the runtime gave them.
pub infer-Inferred :
    (fl : Floats) (sort : List (Detection fl.Float) → List (Detection fl.Float))
    (detector : RknnDetector fl.Float) (frame : CapturedFrame) (w h columns rows : ℕ)
    (info : LetterboxInfo fl) (inner_width inner_height : ℕ) (answers : Answers fl)
    → FloatLaws fl
    → IsSort fl detector.config.nms_threshold detector.config.max_results sort
    → detector.initialized ≡ true
    → detector.impl.input_width ≡ pos columns
    → detector.impl.input_height ≡ pos rows
    → IsNv12 w h frame
    → letterbox_info fl frame.width frame.height (pos columns) (pos rows) ≡ info
    → info.resized_width ≡ pos inner_width
    → info.resized_height ≡ pos inner_height
    → inner_width ≤ columns
    → inner_height ≤ rows
    → ((i : ℕ) → ltb_ℤ (fl.trunc_int (fl.divided (fl.of_int (pos i)) info.scale)) (pos 0) ≡ false)
    → ((buffers : ℕ → Option (List fl.Float))
        → answers.outputs ≡ some buffers
        → AllHold buffers 0 detector.impl.output_attrs)
    → Orderable fl (decoder_of fl detector frame info) detector.impl.output_attrs answers.outputs
    → (result : AiResult fl.Float) × (rgb : List ℕ) × (rest : List RknnCall) × (infer fl sort
          detector frame answers
        ≡ some (result, inputs_set rgb answers.is_set ∷ rest))
      × Letterboxed fl frame info.scale columns rows
          ((columns - inner_width) / 2)
          ((rows - inner_height) / 2)
          inner_width
          inner_height
          rgb
      × Inferred fl detector frame
          (decoder_of fl detector frame info)
          w
          h
          (answers.is_set && (answers.has_run && is_some answers.outputs))
          result
          (inputs_set rgb answers.is_set ∷ rest)
infer-Inferred fl sort detector frame w h columns rows info inner_width inner_height answers
      float_laws sort_laws on is_wide is_high nv12 same wide high fits_width fits_height
      not_negative holds ordered =
    let (rgb, filled, boxed) =
      fill_letterboxed_rgb-Letterboxed fl frame w h columns rows info inner_width inner_height nv12
        same wide high fits_width fits_height not_negative in
    let (result, rest, runs, i) =
      with_input-Inferred fl sort detector frame w h info float_laws sort_laws nv12.has_width
        nv12.has_height nv12.some_width nv12.some_height answers holds ordered rgb answers.is_set in
    (
      result,
      rgb,
      rest,
      infer-runs fl sort detector frame answers columns rows rgb info on is_wide is_high filled
          ∙ runs,
      boxed,
      i,
    )

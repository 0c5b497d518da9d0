-- ===== src/Detector/Infer/Outputs.antt =====
-- The detections that the outputs of the model give.
use edgevision_rv1126b.Prelude.{
  ℕ, ◌+◌, ◌^◌, ◌<◌, ◌≡◌, refl, List, [], ◌∷◌, Option, none, some, arith, length, take, All,
}
use edgevision_rv1126b.Prelude.Int.{pos}
use edgevision_rv1126b.Floats.{Floats, FloatLaws}
use edgevision_rv1126b.Detector.Tensor.{Layout, infer_tensor_layout}
use edgevision_rv1126b.Detector.Tensor.Cells.{tensor_size, Fits, infer_tensor_layout-Fits}
use edgevision_rv1126b.Detector.Rows.{Decoder}
use edgevision_rv1126b.Detector.Rows.Bounds.{Sound, decode_rows-All}
use edgevision_rv1126b.Detector.Setup.{TensorAttr}
use edgevision_rv1126b.Detector.Infer.{
  Parsed, unsupported_note, parse_rows, parse_output, parse_outputs,
}

-- A buffer that is not null holds as many values as the dimensions say, fewer than 2^31.
pub record Holds {F : Type 0} (attr : TensorAttr) (buffer : Option (List F)) : Type 0 where
  pub positive : All (λ d. 0 < d) (take attr.n_dims attr.dims)
  pub small : tensor_size (take attr.n_dims attr.dims) < 2 ^ 31
  pub full :
      (values : List F)
      → buffer ≡ some values
      → length values ≡ tensor_size (take attr.n_dims attr.dims)

-- The outputs from `output_index` on.
abbrev pub AllHold : {F : Type 0} → (ℕ → Option (List F)) → ℕ → List TensorAttr → Type 0
AllHold buffers output_index [] = Unit
AllHold buffers output_index (attr ∷ attrs) =
    Holds attr (buffers output_index) × AllHold buffers (output_index + 1) attrs

module _ (fl : Floats) (laws : FloatLaws fl) (dec : Decoder fl) (w h : ℕ)
    (wide : dec.frame_width ≡ pos w) (high : dec.frame_height ≡ pos h) (some_width : 0 < w)
    (some_height : 0 < h) where
  parse_rows-All :
      (layout : Layout) (n k : ℕ) (buffer : Option (List fl.Float)) (size : ℕ) (parsed : Parsed fl)
      → Fits layout n k size
      → ((values : List fl.Float) → buffer ≡ some values → length values ≡ size)
      → size < 2 ^ 31
      → All (Sound fl dec w h) parsed.found
      → (after : Parsed fl) × (parse_rows fl dec layout buffer parsed ≡ some after)
        × All (Sound fl dec w h) after.found
  unfolding parse_rows
  parse_rows-All layout n k none size parsed fits full small all = (parsed, refl, all)
  parse_rows-All layout n k (some values) size parsed fits full small all =
      let (found, runs, sound) =
        decode_rows-All fl laws dec w h values n k layout.attr_major n 0 parsed.found wide high
          some_width some_height fits.attrs_ge (omega (arith, fits.cells, full values refl))
          (omega (arith, full values refl)) (omega arith) all in
      (record parsed { found = found }, rw (fits.attrs_eq, fits.rows_eq, runs) refl, sound)

  parse_output-All :
      (output_index : ℕ) (attr : TensorAttr) (buffer : Option (List fl.Float)) (parsed : Parsed fl)
      → Holds attr buffer
      → All (Sound fl dec w h) parsed.found
      → (after : Parsed fl) × (parse_output fl dec output_index
            (take attr.n_dims attr.dims)
            buffer
            parsed
          ≡ some after)
        × All (Sound fl dec w h) after.found
  unfolding parse_output
  parse_output-All output_index attr buffer parsed holds all =
      by_layout (infer_tensor_layout (take attr.n_dims attr.dims)) refl
    where
      by_layout :
          (answer : Option Layout)
          → infer_tensor_layout (take attr.n_dims attr.dims) ≡ answer
          → (after : Parsed fl) × (elim answer [
            | none ↦ some (record parsed {
              note = unsupported_note output_index (take attr.n_dims attr.dims);
            })
            | some layout ↦ parse_rows fl dec layout buffer parsed
          ]
              ≡ some after)
            × All (Sound fl dec w h) after.found
      by_layout none e = (
        record parsed { note = unsupported_note output_index (take attr.n_dims attr.dims) },
        refl,
        all,
      )
      by_layout (some layout) e =
          let (n, k, fits) =
            infer_tensor_layout-Fits (take attr.n_dims attr.dims) layout holds.positive holds.small
              e in
          parse_rows-All layout n k buffer (tensor_size (take attr.n_dims attr.dims)) parsed fits
            holds.full holds.small all

  pub parse_outputs-All :
      (attrs : List TensorAttr) (buffers : ℕ → Option (List fl.Float)) (output_index : ℕ)
      (parsed : Parsed fl)
      → AllHold buffers output_index attrs
      → All (Sound fl dec w h) parsed.found
      → (after : Parsed fl) × (parse_outputs fl dec attrs buffers output_index parsed ≡ some after)
        × All (Sound fl dec w h) after.found
  unfolding parse_outputs
  parse_outputs-All [] buffers output_index parsed holds all = (parsed, refl, all)
  parse_outputs-All (attr ∷ attrs) buffers output_index parsed (holds, rest) all =
      let (between, first, sound) =
        parse_output-All output_index attr (buffers output_index) parsed holds all in
      let (after, runs, all_sound) =
        parse_outputs-All attrs buffers (output_index + 1) between rest sound in
      (after, rw first runs, all_sound)

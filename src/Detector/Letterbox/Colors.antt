-- ===== src/Detector/Letterbox/Colors.antt =====
-- The colours that `fillLetterboxedRgb` reads from a frame, and the numbers of the pixels it writes.
use edgevision_rv1126b.Prelude.{
  ℕ, ◌+◌, ◌-◌, ◌*◌, ◌/◌, ◌%◌, ◌≤◌, ◌<◌, ◌≡◌, refl, ap, false, some, arith, length, get_or, ltb,
  if◌then◌else◌,
}
use edgevision_rv1126b.Prelude.Int.{ℤ, pos, negsuc, ltb_ℤ, ◌-ℤ◌, ◌+ℤ◌}
use edgevision_rv1126b.Frame.{CapturedFrame}
use edgevision_rv1126b.Floats.{Floats}
use edgevision_rv1126b.Overlay.{min_ℤ}
use edgevision_rv1126b.Memory.Rows.{row_order, get_elem?-get_or}
use edgevision_rv1126b.Detector.Letterbox.{
  Rgb, rgb_of, half, times_ℕ, source_of, color_at, color_of,
}

-- An NV12 image of an even size, with all of its bytes.
pub record IsNv12 (width height : ℕ) (frame : CapturedFrame) : Type 0 where
  pub has_width : frame.width ≡ pos width
  pub has_height : frame.height ≡ pos height
  pub some_width : 0 < width
  pub some_height : 0 < height
  pub even_width : width % 2 ≡ 0
  pub even_height : height % 2 ≡ 0
  pub all_bytes : width * height + height / 2 * width ≤ length frame.nv12

pos-minus : (a b : ℕ) → b ≤ a → pos a -ℤ pos b ≡ pos (a - b)
unfolding ◌-ℤ◌
pos-minus a b h = ground arith

pos-plus : (a b : ℕ) → pos a +ℤ pos b ≡ pos (a + b)
unfolding ◌+ℤ◌
pos-plus a b = ground arith

clip :
    (size : ℕ) (t : ℤ)
    → 0 < size
    → ltb_ℤ t (pos 0) ≡ false
    → (s : ℕ) × (min_ℤ (pos size -ℤ pos 1) t ≡ pos s) × (s < size)
clip size (pos n) h k =
    rw (pos-minus size 1 h) (if ltb n (size - 1) then n else size - 1, ground arith, ground arith)
clip size (negsuc n) h k = absurd (ground arith)

pub halved :
    (size inner : ℕ) → inner ≤ size → half (pos size -ℤ pos inner) ≡ pos ((size - inner) / 2)
unfolding half
halved size inner h = rw (pos-minus size inner h) refl

pub index_of :
    (top y stride left x : ℕ)
    → times_ℕ (pos top +ℤ pos y) stride +ℤ (pos left +ℤ pos x) ≡ pos ((top + y) * stride + left + x)
unfolding times_ℕ
index_of top y stride left x =
    rw (pos-plus top y, pos-plus left x, pos-plus ((top + y) * stride) (left + x))
      (ap pos (omega arith))

module _ (fl : Floats) (frame : CapturedFrame) (width height : ℕ)
    (nv12 : IsNv12 width height frame) where
  color_at-some :
      (src_y src_x : ℕ)
      → src_y < height
      → src_x < width
      → (color : Rgb) × color_at fl frame src_y src_x ≡ some color
  unfolding color_at
  color_at-some src_y src_x hy hx =
      let luma = row_order width width src_y height (omega arith) hy in
      let chroma = row_order width width (src_y / 2) (height / 2) (omega arith) half_row in
      let uv = width * height + src_y / 2 * width + (src_x - src_x % 2) in
      (
        rgb_of (get_or frame.nv12 (src_y * width + src_x) 0) (get_or frame.nv12 uv 0)
            (get_or frame.nv12 (uv + 1) 0),
        rw
            (
              nv12.has_width,
              nv12.has_height,
              get_elem?-get_or frame.nv12 (src_y * width + src_x)
                  (omega (arith, luma, nv12.all_bytes)),
              get_elem?-get_or frame.nv12 uv (omega (arith, chroma, nv12.all_bytes)),
              get_elem?-get_or frame.nv12 (uv + 1) (omega (arith, chroma, nv12.all_bytes, pair)),
            )
            refl,
      )
    where
      half_row : src_y / 2 < height / 2
      half_row = omega (arith, nv12.even_height)

      pair : src_x - src_x % 2 + 2 ≤ width
      pair = omega (arith, nv12.even_width)

  -- What the conversion of a quotient gives: no source coordinate is negative.
  module _ (scale : fl.Float)
      (not_negative : (i : ℕ)
        → ltb_ℤ (fl.trunc_int (fl.divided (fl.of_int (pos i)) scale)) (pos 0) ≡ false) where
    source_of-pos :
        (size : ℤ) (n i : ℕ)
        → size ≡ pos n
        → 0 < n
        → (s : ℕ) × (source_of fl size scale i ≡ pos s) × (s < n)
    unfolding source_of
    source_of-pos size n i h some_size =
        let (s, eq, lt) =
          clip n (fl.trunc_int (fl.divided (fl.of_int (pos i)) scale)) some_size (not_negative i) in
        (s, rw h eq, lt)

    pub color_of-some : (y x : ℕ) → (color : Rgb) × color_of fl frame scale y x ≡ some color
    unfolding color_of
    color_of-some y x =
        let (src_y, eq_y, lt_y) =
          source_of-pos frame.height height y nv12.has_height nv12.some_height in
        let (src_x, eq_x, lt_x) =
          source_of-pos frame.width width x nv12.has_width nv12.some_width in
        rw (eq_y, eq_x) (color_at-some src_y src_x lt_y lt_x)

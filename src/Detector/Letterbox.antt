-- ===== src/Detector/Letterbox.antt =====
-- `fillLetterboxedRgb` of RknnDetector.cpp: the NV12 frame becomes the RGB input of the model, scaled and
-- centred on grey. `none` is an access outside of a buffer, which a negative coordinate of the source is
-- too, or a negative size of the model's input.
pub mod Filling
pub mod Colors
pub mod Loops
pub mod Box
pub mod Samples
mod Tests
use edgevision_rv1126b.Prelude.{
  ℕ, zero, suc, ◌+◌, ◌-◌, ◌*◌, ◌/◌, ◌%◌, List, Option, none, some, ltb, if◌then◌else◌, length,
  get_elem?, set, replicate, min, ◌>>=◌,
}
use edgevision_rv1126b.Prelude.Int.{ℤ, pos, negsuc, pos_part, sub_ℕ, ltb_ℤ, ◌+ℤ◌, ◌-ℤ◌}
use edgevision_rv1126b.Frame.{CapturedFrame}
use edgevision_rv1126b.Floats.{Floats, fmin}
use edgevision_rv1126b.Overlay.{min_ℤ, max_ℤ}

abbrev pub as_index : ℤ → Option ℕ
as_index (pos n) = some n
as_index (negsuc n) = none

unfoldable pub clamp_to_byte : ℤ → ℕ
clamp_to_byte (pos n) = min n 255
clamp_to_byte (negsuc n) = 0

-- `>> 8` of an `int`, which rounds down.
unfoldable pub shr8 : ℤ → ℤ
shr8 (pos n) = pos (n / 256)
shr8 (negsuc n) = negsuc (n / 256)

-- `/ 2` of an `int`, which rounds towards zero.
unfoldable pub half : ℤ → ℤ
half (pos n) = pos (n / 2)
half (negsuc n) = sub_ℕ 0 ((n + 1) / 2)

pub record Rgb : Type 0 where
  pub r : ℕ
  pub g : ℕ
  pub b : ℕ

-- The colour of a pixel. `c` is `y_value - 16`, at least 0; `d` and `e`, that is `u - 128` and `v - 128`,
-- are multiplied out, so that each sum is a difference of numbers.
unfoldable pub rgb_of : ℕ → ℕ → ℕ → Rgb
unfolding clamp_to_byte shr8
rgb_of y_value u v =
    let c = y_value - 16 in
    record {
      r = clamp_to_byte (shr8 (sub_ℕ (298 * c + 409 * v + 128) (409 * 128)));
      g = clamp_to_byte (shr8 (sub_ℕ (298 * c + 100 * 128 + 208 * 128 + 128) (100 * u + 208 * v)));
      b = clamp_to_byte (shr8 (sub_ℕ (298 * c + 516 * u + 128) (516 * 128)));
    }

-- An `int` times a size.
unfoldable pub times_ℕ : ℤ → ℕ → ℤ
times_ℕ (pos a) n = pos (a * n)
times_ℕ (negsuc a) n = sub_ℕ 0 ((a + 1) * n)

-- The three bytes of a pixel.
unfoldable pub put_pixel : List ℕ → ℕ → Rgb → Option (List ℕ)
put_pixel rgb index color =
    if ltb (index + 2) (length rgb)
    then some (set (set (set rgb index color.r) (index + 1) color.g) (index + 2) color.b)
    else none

module _ (fl : Floats) where
  pub record LetterboxInfo : Type 0 where
    pub scale : fl.Float
    pub pad_x : ℤ
    pub pad_y : ℤ
    pub resized_width : ℤ
    pub resized_height : ℤ

  unfoldable pub letterbox_info : ℤ → ℤ → ℤ → ℤ → LetterboxInfo
  unfolding half
  letterbox_info width height dst_width dst_height =
      let scale =
        fmin fl (fl.divided (fl.of_int dst_width) (fl.of_int width))
          (fl.divided (fl.of_int dst_height) (fl.of_int height)) in
      let resized_width = max_ℤ (pos 1) (fl.round_int (fl.times (fl.of_int width) scale)) in
      let resized_height = max_ℤ (pos 1) (fl.round_int (fl.times (fl.of_int height) scale)) in
      record {
        scale = scale;
        pad_x = half (dst_width -ℤ resized_width);
        pad_y = half (dst_height -ℤ resized_height);
        resized_width = resized_width;
        resized_height = resized_height;
      }

  -- `src_y` and `src_x`.
  unfoldable pub source_of : ℤ → fl.Float → ℕ → ℤ
  source_of size scale i =
      min_ℤ (size -ℤ pos 1) (fl.trunc_int (fl.divided (fl.of_int (pos i)) scale))

  -- The colour at `src_y`, `src_x`.
  unfoldable pub color_at : CapturedFrame → ℕ → ℕ → Option Rgb
  unfolding rgb_of
  color_at frame src_y src_x =
      let width = pos_part frame.width in
      let uv_index = width * pos_part frame.height + src_y / 2 * width + (src_x - src_x % 2) in
      get_elem? frame.nv12 (src_y * width + src_x) >>= λ y_value.
      get_elem? frame.nv12 uv_index >>= λ u.
      get_elem? frame.nv12 (uv_index + 1) >>= λ v. some (rgb_of y_value u v)

  -- The colour of the pixel `x` of the row `y` of the scaled image.
  unfoldable pub color_of : CapturedFrame → fl.Float → ℕ → ℕ → Option Rgb
  unfolding source_of color_at
  color_of frame scale y x = do
    src_y ← as_index (source_of frame.height scale y)
    src_x ← as_index (source_of frame.width scale x)
    color_at frame src_y src_x

  -- The body of the inner loop.
  unfoldable pub fill_pixel : CapturedFrame → LetterboxInfo → ℕ → ℕ → ℕ → List ℕ → Option (List ℕ)
  unfolding color_of put_pixel times_ℕ
  fill_pixel frame info dst_width y x rgb = do
    color ← color_of frame info.scale y x
    let dst_x = info.pad_x +ℤ pos x
    let dst_y = info.pad_y +ℤ pos y
    dst_index ← as_index (times_ℕ dst_y dst_width +ℤ dst_x)
    put_pixel rgb (dst_index * 3) color

  -- The inner loop, `n` pixels from `x` on.
  unfoldable pub fill_row : CapturedFrame → LetterboxInfo → ℕ → ℕ → ℕ → ℕ → List ℕ → Option (List ℕ)
  unfolding fill_pixel
  fill_row frame info dst_width y zero x rgb = some rgb
  fill_row frame info dst_width y (suc n) x rgb =
      fill_pixel frame info dst_width y x rgb >>= λ after.
      fill_row frame info dst_width y n (x + 1) after

  -- The outer loop, `n` rows from `y` on.
  unfoldable pub fill_rows : CapturedFrame → LetterboxInfo → ℕ → ℕ → ℕ → List ℕ → Option (List ℕ)
  unfolding fill_row
  fill_rows frame info dst_width zero y rgb = some rgb
  fill_rows frame info dst_width (suc n) y rgb =
      fill_row frame info dst_width y (pos_part info.resized_width) 0 rgb >>= λ after.
      fill_rows frame info dst_width n (y + 1) after

  unfoldable pub fill_letterboxed_rgb : CapturedFrame → ℤ → ℤ → Option (List ℕ × LetterboxInfo)
  unfolding letterbox_info fill_rows
  fill_letterboxed_rgb frame dst_width dst_height = do
    columns ← as_index dst_width
    rows ← as_index dst_height
    let info = letterbox_info frame.width frame.height dst_width dst_height
    rgb ←
        fill_rows frame info columns (pos_part info.resized_height) 0
          (replicate (columns * rows * 3) 114)
    some (rgb, info)

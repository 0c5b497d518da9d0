-- ===== src/Detector/Letterbox/Box.antt =====
-- The image that `fillLetterboxedRgb` makes of a frame.
use edgevision_rv1126b.Prelude.{
  ℕ, zero, suc, ◌+◌, ◌-◌, ◌*◌, ◌/◌, ◌≤◌, ◌<◌, ◌≡◌, ◌⊎◌, inl, inr, refl, sym, ◌∙◌, false, List, some,
  arith, ap, dec_lt, length, length-replicate, ◌>>=◌, get_or, replicate,
}
use edgevision_rv1126b.Prelude.Int.{ℤ, pos, pos_part, ltb_ℤ, ◌-ℤ◌}
use edgevision_rv1126b.Frame.{CapturedFrame}
use edgevision_rv1126b.Floats.{Floats}
use edgevision_rv1126b.Memory.Rows.{row_order}
use edgevision_rv1126b.Detector.Letterbox.{
  Rgb, half, LetterboxInfo, letterbox_info, color_of, fill_rows, fill_letterboxed_rgb,
}
use edgevision_rv1126b.Detector.Letterbox.Filling.{pixel_at, BoxPainted}
use edgevision_rv1126b.Detector.Letterbox.Colors.{IsNv12, halved, color_of-some}
use edgevision_rv1126b.Detector.Letterbox.Loops.{fill_rows-BoxPainted}

abbrev pub grey : Rgb
grey = record { r = 114; g = 114; b = 114 }

-- An image of `columns` times `rows` pixels: in the box at `left` and `top` the frame's colours, and grey
-- around it.
pub record Letterboxed (fl : Floats) (frame : CapturedFrame) (scale : fl.Float)
    (columns rows left top width height : ℕ) (rgb : List ℕ) : Type 0 where
  pub all_pixels : length rgb ≡ columns * rows * 3
  pub inside :
      (y x : ℕ)
      → y < height
      → x < width
      → color_of fl frame scale y x ≡ some (pixel_at rgb ((top + y) * columns + left + x))
  pub outside :
      (y x : ℕ)
      → y < rows
      → x < columns
      → ((y < top) ⊎ (top + height ≤ y)) ⊎ ((x < left) ⊎ (left + width ≤ x))
      → pixel_at rgb (y * columns + x) ≡ grey

get_or-replicate : (n i v d : ℕ) → i < n → get_or (replicate n v) i d ≡ v
get_or-replicate zero i v d h = absurd (omega arith)
get_or-replicate (suc n) zero v d h = refl
get_or-replicate (suc n) (suc i) v d h = get_or-replicate n i v d (omega arith)

grey_at : (n p : ℕ) → p < n → pixel_at (replicate (n * 3) 114) p ≡ grey
unfolding pixel_at
grey_at n p h =
    rw
      (
        get_or-replicate (n * 3) (p * 3) 114 0 (omega arith),
        get_or-replicate (n * 3) (p * 3 + 1) 114 0 (omega arith),
        get_or-replicate (n * 3) (p * 3 + 2) 114 0 (omega arith),
      )
      refl

BoxPainted-Letterboxed :
    (fl : Floats) (frame : CapturedFrame) (info : LetterboxInfo fl)
    (columns rows left top width height : ℕ) (rgb : List ℕ)
    → left + width ≤ columns
    → BoxPainted
        (λ y x color. color_of fl frame info.scale y x ≡ some color)
        (replicate (columns * rows * 3) 114)
        columns
        left
        top
        width
        0
        height
        rgb
    → Letterboxed fl frame info.scale columns rows left top width height rgb
BoxPainted-Letterboxed fl frame info columns rows left top width height rgb fits p = record {
  all_pixels = p.same_length ∙ length-replicate (columns * rows * 3) 114;
  inside = λ y x hy hx. p.painted y x (omega arith) (omega arith) hx;
  outside = λ y x hy hx o.
      p.kept (y * columns + x) (λ q lo hi. apart y x q hx (omega arith) o)
      ∙ grey_at (columns * rows) (y * columns + x)
          (omega (arith, row_order columns columns y rows (omega arith) hy));
}
  where
    apart :
        (y x q : ℕ)
        → x < columns
        → q < height
        → ((y < top) ⊎ (top + height ≤ y)) ⊎ ((x < left) ⊎ (left + width ≤ x))
        → (y * columns + x < (top + q) * columns + left)
          ⊎ ((top + q) * columns + left + width ≤ y * columns + x)
    apart y x q hx hq o = elim (dec_lt y (top + q)) [
      | yes above ↦ inl (omega (arith, row_order columns columns y (top + q) (omega arith) above))
      | no above ↦ elim (dec_lt (top + q) y) [
        | yes below ↦ inr (omega (arith, row_order columns (left + width) (top + q) y fits below))
        | no below ↦ let same : y ≡ top + q = omega arith in rw same (ground arith)
      ]
    ]

letterbox_info-pad_x :
    (fl : Floats) (w h : ℤ) (columns rows : ℕ) (info : LetterboxInfo fl) (inner : ℕ)
    → letterbox_info fl w h (pos columns) (pos rows) ≡ info
    → info.resized_width ≡ pos inner
    → inner ≤ columns
    → info.pad_x ≡ pos ((columns - inner) / 2)
unfolding letterbox_info
letterbox_info-pad_x fl w h columns rows info inner same is_width fits =
    ap (λ i. i.pad_x) (sym same)
    ∙ ap (λ r. half (pos columns -ℤ r)) (ap (λ i. i.resized_width) same ∙ is_width)
    ∙ halved columns inner fits

letterbox_info-pad_y :
    (fl : Floats) (w h : ℤ) (columns rows : ℕ) (info : LetterboxInfo fl) (inner : ℕ)
    → letterbox_info fl w h (pos columns) (pos rows) ≡ info
    → info.resized_height ≡ pos inner
    → inner ≤ rows
    → info.pad_y ≡ pos ((rows - inner) / 2)
unfolding letterbox_info
letterbox_info-pad_y fl w h columns rows info inner same is_height fits =
    ap (λ i. i.pad_y) (sym same)
    ∙ ap (λ r. half (pos rows -ℤ r)) (ap (λ i. i.resized_height) same ∙ is_height)
    ∙ halved rows inner fits

fill_letterboxed_rgb-runs :
    (fl : Floats) (frame : CapturedFrame) (columns rows : ℕ) (info : LetterboxInfo fl)
    (inner_height : ℕ) (rgb : List ℕ)
    → letterbox_info fl frame.width frame.height (pos columns) (pos rows) ≡ info
    → info.resized_height ≡ pos inner_height
    → fill_rows fl frame info columns inner_height 0 (replicate (columns * rows * 3) 114) ≡ some rgb
    → fill_letterboxed_rgb fl frame (pos columns) (pos rows) ≡ some (rgb, info)
unfolding fill_letterboxed_rgb
fill_letterboxed_rgb-runs fl frame columns rows info inner_height rgb same high runs =
    let filled : fill_rows fl frame info columns (pos_part info.resized_height) 0
          (replicate (columns * rows * 3) 114)
        ≡ some rgb =
      ap (λ n. fill_rows fl frame info columns (pos_part n) 0 (replicate (columns * rows * 3) 114))
        high
      ∙ runs in
    ap
      (λ i.
        fill_rows fl frame i columns (pos_part i.resized_height) 0
          (replicate (columns * rows * 3) 114)
        >>= λ after. some (after, i))
      same
    ∙ ap (λ r. r >>= λ after. some (after, info)) filled

-- A frame of an even size with all of its bytes is letterboxed without an access outside of a buffer.
-- The conditions are that the scaled image is no larger than the model's input, and that no quotient of a
-- coordinate by the scale becomes a negative `int`. The image has all pixels: in the centred box the colour
-- of the source pixel that the scale names, and the grey 114 around it.
pub fill_letterboxed_rgb-Letterboxed :
    (fl : Floats) (frame : CapturedFrame) (width height columns rows : ℕ) (info : LetterboxInfo fl)
    (inner_width inner_height : ℕ)
    → IsNv12 width height frame
    → letterbox_info fl frame.width frame.height (pos columns) (pos rows) ≡ info
    → info.resized_width ≡ pos inner_width
    → info.resized_height ≡ pos inner_height
    → inner_width ≤ columns
    → inner_height ≤ rows
    → ((i : ℕ) → ltb_ℤ (fl.trunc_int (fl.divided (fl.of_int (pos i)) info.scale)) (pos 0) ≡ false)
    → (rgb : List ℕ) × (fill_letterboxed_rgb fl frame (pos columns) (pos rows) ≡ some (rgb, info))
      × Letterboxed fl frame info.scale columns rows
          ((columns - inner_width) / 2)
          ((rows - inner_height) / 2)
          inner_width
          inner_height
          rgb
fill_letterboxed_rgb-Letterboxed fl frame width height columns rows info inner_width inner_height
      nv12 same wide high fits_width fits_height not_negative =
    let left = (columns - inner_width) / 2 in
    let top = (rows - inner_height) / 2 in
    let (rgb, runs, p) =
      fill_rows-BoxPainted fl frame info left top inner_width columns rows inner_height
        (letterbox_info-pad_x fl frame.width frame.height columns rows info inner_width same wide
          fits_width)
        (letterbox_info-pad_y fl frame.width frame.height columns rows info inner_height same high
          fits_height)
        (ap pos_part wide) (omega arith) (omega arith)
        (color_of-some fl frame width height nv12 info.scale not_negative) inner_height 0
        (replicate (columns * rows * 3) 114) (omega arith)
        (length-replicate (columns * rows * 3) 114) in
    (
      rgb,
      fill_letterboxed_rgb-runs fl frame columns rows info inner_height rgb same high runs,
      BoxPainted-Letterboxed fl frame info columns rows left top inner_width inner_height rgb
          (omega arith) p,
    )

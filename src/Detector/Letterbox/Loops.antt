-- ===== src/Detector/Letterbox/Loops.antt =====
-- The loops of `fillLetterboxedRgb` over a box within the image.
use edgevision_rv1126b.Prelude.{
  ℕ, zero, suc, ◌+◌, ◌*◌, ◌≤◌, ◌<◌, ◌≡◌, refl, ◌∙◌, List, some, arith, length,
}
use edgevision_rv1126b.Prelude.Int.{pos, pos_part}
use edgevision_rv1126b.Frame.{CapturedFrame}
use edgevision_rv1126b.Floats.{Floats}
use edgevision_rv1126b.Memory.Rows.{row_order}
use edgevision_rv1126b.Detector.Letterbox.{
  Rgb, LetterboxInfo, color_of, fill_pixel, fill_row, fill_rows,
}
use edgevision_rv1126b.Detector.Letterbox.Filling.{
  Painted, put_pixel-Painted, RowPainted, RowPainted-suc, BoxPainted, BoxPainted-suc,
}
use edgevision_rv1126b.Detector.Letterbox.Colors.{index_of}

-- The loops over a box at `left` and `top`, `width` times `height` pixels, that lies within the image.
module _ (fl : Floats) (frame : CapturedFrame) (info : LetterboxInfo fl)
    (left top width columns rows height : ℕ) (at_left : info.pad_x ≡ pos left)
    (at_top : info.pad_y ≡ pos top) (is_wide : pos_part info.resized_width ≡ width)
    (fits_width : left + width ≤ columns) (fits_height : top + height ≤ rows)
    (colors : (y x : ℕ) → (color : Rgb) × color_of fl frame info.scale y x ≡ some color) where
  abbrev pub HasColor : ℕ → ℕ → Rgb → Type 0
  HasColor y x color = color_of fl frame info.scale y x ≡ some color

  room : (y x : ℕ) → y < height → x < width → (top + y) * columns + left + x < columns * rows
  room y x hy hx =
      omega (arith, row_order columns columns (top + y) rows (omega arith) (omega arith))

  fill_pixel-Painted :
      (y x : ℕ) (rgb : List ℕ)
      → y < height
      → x < width
      → length rgb ≡ columns * rows * 3
      → (after : List ℕ) × (color : Rgb) × (fill_pixel fl frame info columns y x rgb ≡ some after)
        × HasColor y x color
        × Painted rgb ((top + y) * columns + left + x) color after
  unfolding fill_pixel
  fill_pixel-Painted y x rgb hy hx same =
      let (color, eq) = colors y x in
      let (after, runs, p) =
        put_pixel-Painted rgb ((top + y) * columns + left + x) color
          (omega (arith, room y x hy hx)) in
      let painted : fill_pixel fl frame info columns y x rgb ≡ some after =
        rw (eq, at_left, at_top, index_of top y columns left x) runs in
      (after, color, painted, eq, p)

  fill_row-RowPainted :
      (n y x : ℕ) (rgb : List ℕ)
      → y < height
      → x + n ≤ width
      → length rgb ≡ columns * rows * 3
      → (after : List ℕ) × (fill_row fl frame info columns y n x rgb ≡ some after)
        × RowPainted (HasColor y) rgb ((top + y) * columns + left) x n after
  unfolding fill_row
  fill_row-RowPainted zero y x rgb hy hx same = (
    rgb,
    refl,
    record { same_length = refl; painted = λ k lo hi. absurd (omega arith); kept = λ q o. refl },
  )
  fill_row-RowPainted (suc n) y x rgb hy hx same =
      let (between, color, first, right, p) = fill_pixel-Painted y x rgb hy (omega arith) same in
      let (after, rest, r) =
        fill_row-RowPainted n y (x + 1) between hy (omega arith) (p.same_length ∙ same) in
      (
        after,
        rw first rest,
        RowPainted-suc (HasColor y) rgb between after ((top + y) * columns + left) x n color right p
            r,
      )

  fill_rows-suc :
      (n y : ℕ) (rgb between : List ℕ)
      → fill_row fl frame info columns y width 0 rgb ≡ some between
      → fill_rows fl frame info columns (suc n) y rgb
        ≡ fill_rows fl frame info columns n (y + 1) between
  unfolding fill_rows
  fill_rows-suc n y rgb between h = rw (is_wide, h) refl

  pub fill_rows-BoxPainted :
      (n y : ℕ) (rgb : List ℕ)
      → y + n ≤ height
      → length rgb ≡ columns * rows * 3
      → (after : List ℕ) × (fill_rows fl frame info columns n y rgb ≡ some after)
        × BoxPainted HasColor rgb columns left top width y n after
  unfolding fill_rows
  fill_rows-BoxPainted zero y rgb hy same = (
    rgb,
    refl,
    record { same_length = refl; painted = λ k x lo hi. absurd (omega arith); kept = λ q o. refl },
  )
  fill_rows-BoxPainted (suc n) y rgb hy same =
      let (between, first, p) =
        fill_row-RowPainted width y 0 rgb (omega arith) (omega arith) same in
      let (after, rest, r) =
        fill_rows-BoxPainted n (y + 1) between (omega arith) (p.same_length ∙ same) in
      (
        after,
        fill_rows-suc n y rgb between first ∙ rest,
        BoxPainted-suc HasColor rgb between after columns left top width y n fits_width p r,
      )

-- ===== src/Detector/Letterbox/Filling.antt =====
-- The pixels that the loops of `fillLetterboxedRgb` paint, and those they keep.
use edgevision_rv1126b.Prelude.{
  ℕ, suc, ◌+◌, ◌*◌, ◌≤◌, ◌<◌, ◌≡◌, ◌≢◌, ◌⊎◌, inl, refl, ◌∙◌, List, some, arith, length, get_or, set,
  length-set, get_or-set_self, get_or-set_ne, lt→ltb, ℕ_discrete,
}
use edgevision_rv1126b.Memory.Rows.{row_order}
use edgevision_rv1126b.Detector.Letterbox.{Rgb, put_pixel}

-- The pixel number `p` of an image.
unfoldable pub pixel_at : List ℕ → ℕ → Rgb
pixel_at rgb p = record {
  r = get_or rgb (p * 3) 0;
  g = get_or rgb (p * 3 + 1) 0;
  b = get_or rgb (p * 3 + 2) 0;
}

rgb_eq : (x y : Rgb) → x.r ≡ y.r → x.g ≡ y.g → x.b ≡ y.b → x ≡ y
rgb_eq x y hr hg hb = λ i. record { r = hr i; g = hg i; b = hb i }

-- `after` is `before` with the pixel `p` in `color`.
pub record Painted (before : List ℕ) (p : ℕ) (color : Rgb) (after : List ℕ) : Type 0 where
  pub same_length : length after ≡ length before
  pub painted : pixel_at after p ≡ color
  pub kept : (q : ℕ) → q ≢ p → pixel_at after q ≡ pixel_at before q

module _ (rgb : List ℕ) (i x y z : ℕ) where
  abbrev one : List ℕ
  one = set rgb i x

  abbrev two : List ℕ
  two = set one (i + 1) y

  abbrev three : List ℕ
  three = set two (i + 2) z

  length-three : length three ≡ length rgb
  length-three = length-set two (i + 2) z ∙ length-set one (i + 1) y ∙ length-set rgb i x

  three-first : i + 2 < length rgb → get_or three i 0 ≡ x
  three-first h =
      get_or-set_ne two (i + 2) i z 0 (λ e. omega arith)
      ∙ get_or-set_ne one (i + 1) i y 0 (λ e. omega arith)
      ∙ get_or-set_self rgb i x 0 (omega arith)

  three-second : i + 2 < length rgb → get_or three (i + 1) 0 ≡ y
  three-second h =
      get_or-set_ne two (i + 2) (i + 1) z 0 (λ e. omega arith)
      ∙ get_or-set_self one (i + 1) y 0 (omega (arith, length-set rgb i x))

  three-third : i + 2 < length rgb → get_or three (i + 2) 0 ≡ z
  three-third h =
      get_or-set_self two (i + 2) z 0 (omega (arith, length-set rgb i x, length-set one (i + 1) y))

  three-other : (j : ℕ) → (j < i) ⊎ (i + 2 < j) → get_or three j 0 ≡ get_or rgb j 0
  three-other j o =
      get_or-set_ne two (i + 2) j z 0 (ground arith)
      ∙ get_or-set_ne one (i + 1) j y 0 (ground arith)
      ∙ get_or-set_ne rgb i j x 0 (ground arith)

pub put_pixel-Painted :
    (rgb : List ℕ) (p : ℕ) (color : Rgb)
    → p * 3 + 2 < length rgb
    → (after : List ℕ) × (put_pixel rgb (p * 3) color ≡ some after) × Painted rgb p color after
unfolding put_pixel pixel_at
put_pixel-Painted rgb p color h =
    let i = p * 3 in
    let after = three rgb i color.r color.g color.b in
    let other = three-other rgb i color.r color.g color.b in
    (
      after,
      rw (lt→ltb (i + 2) (length rgb) h) refl,
      record {
        same_length = length-three rgb i color.r color.g color.b;
        painted =
            rgb_eq (pixel_at after p) color (three-first rgb i color.r color.g color.b h)
              (three-second rgb i color.r color.g color.b h)
              (three-third rgb i color.r color.g color.b h);
        kept = λ q ne.
            rgb_eq (pixel_at after q) (pixel_at rgb q) (other (q * 3) (ground arith))
              (other (q * 3 + 1) (ground arith)) (other (q * 3 + 2) (ground arith));
      },
    )

-- `after` has the pixels `x` to `x + n - 1` of the row that starts at `base` in the colours that
-- `HasColor` allows, and is `before` elsewhere.
pub record RowPainted (HasColor : ℕ → Rgb → Type 0) (before : List ℕ) (base x n : ℕ)
    (after : List ℕ) : Type 0 where
  pub same_length : length after ≡ length before
  pub painted : (k : ℕ) → x ≤ k → k < x + n → HasColor k (pixel_at after (base + k))
  pub kept : (q : ℕ) → (q < base + x) ⊎ (base + x + n ≤ q) → pixel_at after q ≡ pixel_at before q

pub RowPainted-suc :
    (HasColor : ℕ → Rgb → Type 0) (before between after : List ℕ) (base x n : ℕ) (color : Rgb)
    → HasColor x color
    → Painted before (base + x) color between
    → RowPainted HasColor between base (x + 1) n after
    → RowPainted HasColor before base x (suc n) after
RowPainted-suc HasColor before between after base x n color right p r = record {
  same_length = r.same_length ∙ p.same_length;
  painted = painted;
  kept = λ q o. r.kept q (ground arith) ∙ p.kept q (λ e. ground arith);
}
  where
    painted : (k : ℕ) → x ≤ k → k < x + suc n → HasColor k (pixel_at after (base + k))
    painted k lo hi = elim (ℕ_discrete x k) [
      | yes same ↦ rw (← same, r.kept (base + x) (inl (omega arith)), p.painted) right
      | no other ↦ r.painted k (omega arith) (omega arith)
    ]

-- Rows `row` to `row + n - 1` of a box `width` pixels wide, at `left` and `top` of an image `stride`
-- pixels wide, have the colours that `HasColor` allows, and `after` is `before` elsewhere.
pub record BoxPainted (HasColor : ℕ → ℕ → Rgb → Type 0) (before : List ℕ)
    (stride left top width row n : ℕ) (after : List ℕ) : Type 0 where
  pub same_length : length after ≡ length before
  pub painted :
      (y x : ℕ)
      → row ≤ y
      → y < row + n
      → x < width
      → HasColor y x (pixel_at after ((top + y) * stride + left + x))
  pub kept :
      (q : ℕ)
      → ((y : ℕ)
          → row ≤ y
          → y < row + n
          → (q < (top + y) * stride + left) ⊎ ((top + y) * stride + left + width ≤ q))
      → pixel_at after q ≡ pixel_at before q

pub BoxPainted-suc :
    (HasColor : ℕ → ℕ → Rgb → Type 0) (before between after : List ℕ)
    (stride left top width row n : ℕ)
    → left + width ≤ stride
    → RowPainted (HasColor row) before ((top + row) * stride + left) 0 width between
    → BoxPainted HasColor between stride left top width (row + 1) n after
    → BoxPainted HasColor before stride left top width row (suc n) after
BoxPainted-suc HasColor before between after stride left top width row n fits p r = record {
  same_length = r.same_length ∙ p.same_length;
  painted = painted;
  kept = λ q o.
      r.kept q (λ y lo hi. o y (omega arith) (omega arith))
      ∙ p.kept q (ground (arith, o row (omega arith) (omega arith)));
}
  where
    painted :
        (y x : ℕ)
        → row ≤ y
        → y < row + suc n
        → x < width
        → HasColor y x (pixel_at after ((top + y) * stride + left + x))
    painted y x lo hi lt = elim (ℕ_discrete row y) [
      | yes same ↦ rw (← same) (
          rw
            (r.kept ((top + row) * stride + left + x) (λ z low high. inl (
              omega
                (arith, row_order stride (left + width) (top + row) (top + z) fits (omega arith)))))
            (p.painted x (omega arith) (omega arith)))
      | no other ↦ r.painted y x (omega arith) (omega arith) lt
    ]

-- ===== src/Memory/Planes.antt =====
-- An NV12 image that is copied from one stride to another.
use native.Mathlib.Nat.{zero-add}
use edgevision_rv1126b.Prelude.{
  ℕ, ◌+◌, ◌*◌, ◌/◌, ◌≤◌, ◌<◌, ◌≡◌, ◌⊎◌, inl, ◌∙◌, List, some, arith, length, get_or,
}
use edgevision_rv1126b.Memory.{copy_planes}
use edgevision_rv1126b.Memory.Rows.{RowsCopied, copy_rows-RowsCopied, row_order}

-- Every pixel of both planes of `src` is in `after`, and what lies outside of the rows is `before`.
pub record PlanesCopied (width height : ℕ) (before : List ℕ) (to_stride to_chroma : ℕ)
    (src : List ℕ) (from_stride from_chroma : ℕ) (after : List ℕ) : Type 0 where
  pub same_length : length after ≡ length before
  pub luma :
      (r c : ℕ)
      → r < height
      → c < width
      → get_or after (r * to_stride + c) 0 ≡ get_or src (r * from_stride + c) 0
  pub chroma :
      (r c : ℕ)
      → r < height / 2
      → c < width
      → get_or after (to_chroma + r * to_stride + c) 0
        ≡ get_or src (from_chroma + r * from_stride + c) 0
  pub kept :
      (j : ℕ)
      → ((r : ℕ) → r < height → (j < r * to_stride) ⊎ (r * to_stride + width ≤ j))
      → ((r : ℕ)
          → r < height / 2
          → (j < to_chroma + r * to_stride) ⊎ (to_chroma + r * to_stride + width ≤ j))
      → get_or after j 0 ≡ get_or before j 0

-- Where the planes fit into both buffers.
pub record PlanesFit (width height stride base size : ℕ) : Type 0 where
  pub wide : width ≤ stride
  pub luma : height * stride ≤ base
  pub chroma : base + height / 2 * stride ≤ size

row_in :
    (stride base size rows width : ℕ)
    → width ≤ stride
    → base + rows * stride ≤ size
    → (r : ℕ) → r < rows
    → base + r * stride + width ≤ size
row_in stride base size rows width wide fits r lt =
    omega (arith, row_order stride width r rows wide lt)

module _ {width height : ℕ} where
  both :
      {before : List ℕ} {to_stride to_chroma : ℕ} {src : List ℕ} {from_stride from_chroma : ℕ}
      {between after : List ℕ}
      → PlanesFit width height to_stride to_chroma (length before)
      → RowsCopied before 0 to_stride src 0 from_stride width 0 height between
      → RowsCopied between to_chroma to_stride src from_chroma from_stride width 0
          (height / 2)
          after
      → PlanesCopied width height before to_stride to_chroma src from_stride from_chroma after
  both {before} {to_stride} {to_chroma} {src} {from_stride} {from_chroma} {between} {after} room y
        uv =
      record {
        same_length = uv.same_length ∙ y.same_length;
        luma = luma;
        chroma = λ r c lt wide. uv.moved r c (omega arith) (omega arith) wide;
        kept = λ j out out'.
            uv.kept j (λ r lo hi. out' r (omega arith))
            ∙ y.kept j (λ r lo hi. rw (zero-add (r * to_stride)) (out r (omega arith)));
      }
    where
      luma :
          (r c : ℕ)
          → r < height
          → c < width
          → get_or after (r * to_stride + c) 0 ≡ get_or src (r * from_stride + c) 0
      luma r c lt wide =
          uv.kept (r * to_stride + c) (λ q lo hi. inl (
            omega (
              arith,
              row_in to_stride 0 to_chroma height width room.wide (omega (arith, room.luma)) r lt,
            )))
          ∙ simp (zero-add) at (y.moved r c (omega arith) (omega arith) wide)

  pub copy_planes-PlanesCopied :
      (before : List ℕ) (to_stride to_chroma : ℕ) (src : List ℕ) (from_stride from_chroma : ℕ)
      → PlanesFit width height to_stride to_chroma (length before)
      → PlanesFit width height from_stride from_chroma (length src)
      → (after : List ℕ) × (copy_planes width height before to_stride to_chroma src from_stride
            from_chroma
          ≡ some after)
        × PlanesCopied width height before to_stride to_chroma src from_stride from_chroma after
  unfolding copy_planes
  copy_planes-PlanesCopied before to_stride to_chroma src from_stride from_chroma room there =
      let (between, first, y) =
        copy_rows-RowsCopied 0 to_stride src 0 from_stride width room.wide height 0 before
          (λ r lt.
            row_in to_stride 0 (length before) height width room.wide
              (omega (arith, room.luma, room.chroma)) r (omega arith))
          (λ r lt.
            row_in from_stride 0 (length src) height width there.wide
              (omega (arith, there.luma, there.chroma)) r (omega arith)) in
      let (after, second, uv) =
        copy_rows-RowsCopied to_chroma to_stride src from_chroma from_stride width room.wide
          (height / 2) 0 between
          (λ r lt.
            row_in to_stride to_chroma (length between) (height / 2) width room.wide
              (omega (arith, room.chroma, y.same_length)) r (omega arith))
          (λ r lt.
            row_in from_stride from_chroma (length src) (height / 2) width there.wide there.chroma r
              (omega arith)) in
      (after, rw first second, both room y uv)

-- ===== src/Memory/Rows.antt =====
-- What `memcpy` and the loop over the rows leave behind.
use native.Mathlib.Nat.{add-zero, suc-mul, mul-le-mul_right}
use edgevision_rv1126b.Prelude.{
  ℕ, zero, suc, ◌+◌, ◌*◌, ◌≤◌, ◌<◌, ◌≡◌, ◌⊎◌, inl, refl, ◌∙◌, List, [], ◌∷◌, some, arith, length,
  get_or, get_elem?, set, length-set, get_or-set_self, get_or-set_ne, lt→ltb, ℕ_discrete,
}
use edgevision_rv1126b.Memory.{memcpy, copy_rows}

pub get_elem?-get_or : (xs : List ℕ) (i : ℕ) → i < length xs → get_elem? xs i ≡ some (get_or xs i 0)
get_elem?-get_or [] i h = absurd (omega arith)
get_elem?-get_or (x ∷ xs) zero h = refl
get_elem?-get_or (x ∷ xs) (suc i) h = get_elem?-get_or xs i (omega arith)

-- `after` holds `n` bytes of `src` from `to` on, and is `before` elsewhere.
pub record Copied (before : List ℕ) (to : ℕ) (src : List ℕ) (from n : ℕ) (after : List ℕ)
    : Type 0 where
  pub same_length : length after ≡ length before
  pub moved : (i : ℕ) → i < n → get_or after (to + i) 0 ≡ get_or src (from + i) 0
  pub kept : (j : ℕ) → (j < to) ⊎ (to + n ≤ j) → get_or after j 0 ≡ get_or before j 0

module _ (src : List ℕ) where
  Copied-suc :
      (dst : List ℕ) (to from n : ℕ) (after : List ℕ)
      → to < length dst
      → Copied (set dst to (get_or src from 0)) (to + 1) src (from + 1) n after
      → Copied dst to src from (suc n) after
  Copied-suc dst to from n after h c = record {
    same_length = c.same_length ∙ length-set dst to (get_or src from 0);
    moved = moved;
    kept = λ j o.
        c.kept j (ground arith) ∙ get_or-set_ne dst to j (get_or src from 0) 0 (ground arith);
  }
    where
      shift : (a k : ℕ) → a + suc k ≡ a + 1 + k
      shift a k = omega arith

      moved : (i : ℕ) → i < suc n → get_or after (to + i) 0 ≡ get_or src (from + i) 0
      moved zero lt =
          rw (add-zero to, add-zero from)
            (c.kept to (inl (omega arith)) ∙ get_or-set_self dst to (get_or src from 0) 0 h)
      moved (suc k) lt = rw (shift to k, shift from k) (c.moved k (omega arith))

  pub memcpy-Copied :
      (n : ℕ) (dst : List ℕ) (to from : ℕ)
      → to + n ≤ length dst
      → from + n ≤ length src
      → (after : List ℕ) × (memcpy dst to src from n ≡ some after) × Copied dst to src from n after
  unfolding memcpy
  memcpy-Copied zero dst to from h k = (
    dst,
    refl,
    record { same_length = refl; moved = λ i lt. absurd (omega arith); kept = λ j o. refl },
  )
  memcpy-Copied (suc n) dst to from h k =
      let (after, runs, c) =
        memcpy-Copied n (set dst to (get_or src from 0)) (to + 1) (from + 1)
          (omega (arith, length-set dst to (get_or src from 0))) (omega arith) in
      (
        after,
        rw (get_elem?-get_or src from (omega arith), lt→ltb to (length dst) (omega arith)) runs,
        Copied-suc dst to from n after (omega arith) c,
      )

-- Rows `row` to `row + n - 1` of `src` stand in `after`, and the rest of it is `before`. A byte of a
-- row is at its base, its row times the stride, and its column.
pub record RowsCopied (before : List ℕ) (to to_stride : ℕ) (src : List ℕ)
    (from from_stride width row n : ℕ) (after : List ℕ) : Type 0 where
  pub same_length : length after ≡ length before
  pub moved :
      (r c : ℕ)
      → row ≤ r
      → r < row + n
      → c < width
      → get_or after (to + r * to_stride + c) 0 ≡ get_or src (from + r * from_stride + c) 0
  pub kept :
      (j : ℕ)
      → ((r : ℕ)
          → row ≤ r
          → r < row + n
          → (j < to + r * to_stride) ⊎ (to + r * to_stride + width ≤ j))
      → get_or after j 0 ≡ get_or before j 0

-- Rows do not overlap when none is wider than the stride.
pub row_order : (stride width r q : ℕ) → width ≤ stride → r < q → r * stride + width ≤ q * stride
row_order stride width r q h lt = omega (arith, mul-le-mul_right stride lt, suc-mul r stride)

module _ (to to_stride : ℕ) (src : List ℕ) (from from_stride width : ℕ)
    (fits : width ≤ to_stride) where
  RowsCopied-suc :
      (row n : ℕ) (before between after : List ℕ)
      → Copied before (to + row * to_stride) src (from + row * from_stride) width between
      → RowsCopied between to to_stride src from from_stride width (row + 1) n after
      → RowsCopied before to to_stride src from from_stride width row (suc n) after
  RowsCopied-suc row n before between after c r = record {
    same_length = r.same_length ∙ c.same_length;
    moved = moved;
    kept = λ j o.
        r.kept j (λ q lo hi. o q (omega arith) (omega arith))
        ∙ c.kept j (o row (omega arith) (omega arith));
  }
    where
      moved :
          (q k : ℕ)
          → row ≤ q
          → q < row + suc n
          → k < width
          → get_or after (to + q * to_stride + k) 0 ≡ get_or src (from + q * from_stride + k) 0
      moved q k lo hi lt = elim (ℕ_discrete row q) [
        | yes same ↦ rw (← same) (
            r.kept (to + row * to_stride + k) (λ p low high.
              inl (omega (arith, row_order to_stride width row p fits (omega arith))))
            ∙ c.moved k lt)
        | no other ↦ r.moved q k (omega arith) (omega arith) lt
      ]

  -- The loop is safe where the last row of either buffer fits.
  pub copy_rows-RowsCopied :
      (n row : ℕ) (before : List ℕ)
      → ((r : ℕ) → r < row + n → to + r * to_stride + width ≤ length before)
      → ((r : ℕ) → r < row + n → from + r * from_stride + width ≤ length src)
      → (after : List ℕ) × (copy_rows n row before to to_stride src from from_stride width
          ≡ some after)
        × RowsCopied before to to_stride src from from_stride width row n after
  unfolding copy_rows
  copy_rows-RowsCopied zero row before room there = (
    before,
    refl,
    record { same_length = refl; moved = λ r c lo hi lt. absurd (omega arith); kept = λ j o. refl },
  )
  copy_rows-RowsCopied (suc n) row before room there =
      let (between, first, c) =
        memcpy-Copied src width before (to + row * to_stride) (from + row * from_stride)
          (room row (omega arith)) (there row (omega arith)) in
      let (after, rest, r) =
        copy_rows-RowsCopied n (row + 1) between
          (λ q lt. omega (arith, room q (omega arith), c.same_length))
          (λ q lt. there q (omega arith)) in
      (after, rw first rest, RowsCopied-suc row n before between after c r)

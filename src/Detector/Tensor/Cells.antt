-- ===== src/Detector/Tensor/Cells.antt =====
-- Every cell of a tensor that the layout names is there.
use native.Mathlib.Nat.{mul-le-mul_right, mul-le-mul_left, mul_comm}
use edgevision_rv1126b.Prelude.{
  ℕ, zero, suc, ◌+◌, ◌*◌, ◌^◌, ◌≤◌, ◌<◌, ◌≡◌, refl, sym, ap, ◌∙◌, Bool, true, false, List, [], ◌∷◌,
  Option, none, some, arith, leb, if◌then◌else◌, length, get_elem?, All, lt→ltb,
}
use edgevision_rv1126b.Prelude.Int.{pos}
use edgevision_rv1126b.Detector.Tensor.{
  int_of, Layout, layout_of, infer_tensor_layout, read_tensor_value,
}

-- The number of values of a tensor.
abbrev pub tensor_size : List ℕ → ℕ
tensor_size [] = 1
tensor_size (d ∷ ds) = d * tensor_size ds

get_elem?-some {ℓ} :
    {A : Type ℓ} (xs : List A) (i : ℕ) → i < length xs → (x : A) × (get_elem? xs i ≡ some x)
get_elem?-some [] i h = absurd (omega arith)
get_elem?-some (x ∷ xs) zero h = (x, refl)
get_elem?-some (x ∷ xs) (suc i) h = get_elem?-some xs i (omega arith)

-- A layout of `n` by `k` cells.
pub record Fits (layout : Layout) (n k : ℕ) (size : ℕ) : Type 0 where
  pub rows_eq : layout.rows ≡ pos n
  pub attrs_eq : layout.attrs ≡ pos k
  pub attrs_ge : 6 ≤ k
  pub cells : n * k ≤ size

int_of-pos : (n : ℕ) → n < 2 ^ 31 → int_of n ≡ pos n
int_of-pos n h = rw (lt→ltb n (2 ^ 31) h)

factor_le : (a b : ℕ) → 0 < b → a ≤ a * b
factor_le a b h = omega (arith, mul-le-mul_left a h)

factor_le_right : (a b : ℕ) → 0 < a → b ≤ a * b
factor_le_right a b h = omega (arith, mul-le-mul_right b h)

-- The branches once the dimensions are known to be `int`s.
branches : ℕ → ℕ → Bool → Bool → Option Layout
branches a b last_wide second_wide =
    if last_wide
    then some (record { rows = pos a; attrs = pos b; attr_major = false })
    else if second_wide
    then some (record { rows = pos b; attrs = pos a; attr_major = true })
    else none

layout_of-branches :
    (a b : ℕ) → a < 2 ^ 31 → b < 2 ^ 31 → layout_of a b ≡ branches a b (leb 6 b) (leb 6 a)
unfolding branches
layout_of-branches a b ha hb = rw (int_of-pos a ha, int_of-pos b hb) refl

branches-Fits :
    (a b size : ℕ) (layout : Layout) (last_wide second_wide : Bool)
    → leb 6 b ≡ last_wide
    → leb 6 a ≡ second_wide
    → a * b ≤ size
    → branches a b last_wide second_wide ≡ some layout
    → (n : ℕ) × (k : ℕ) × Fits layout n k size
unfolding branches
branches-Fits a b size layout true second_wide w v le e =
    let same : record { rows = pos a; attrs = pos b; attr_major = false } ≡ layout = cc in
    rw (← same)
      (a, b, record { rows_eq = refl; attrs_eq = refl; attrs_ge = ground arith; cells = le })
branches-Fits a b size layout false true w v le e =
    let same : record { rows = pos b; attrs = pos a; attr_major = true } ≡ layout = cc in
    rw (← same) (
      b,
      a,
      record {
        rows_eq = refl;
        attrs_eq = refl;
        attrs_ge = ground arith;
        cells = omega (arith, mul_comm a b);
      },
    )
branches-Fits a b size layout false false w v le e = cc

layout_of-Fits :
    (a b size : ℕ) (layout : Layout)
    → 0 < a
    → 0 < b
    → a * b ≤ size
    → size < 2 ^ 31
    → layout_of a b ≡ some layout
    → (n : ℕ) × (k : ℕ) × Fits layout n k size
layout_of-Fits a b size layout ha hb le lt e =
    branches-Fits a b size layout (leb 6 b) (leb 6 a) refl refl le (
      sym (
        layout_of-branches a b (omega (arith, factor_le a b hb))
          (omega (arith, factor_le_right a b ha)))
      ∙ e)

pub infer_tensor_layout-Fits :
    (dims : List ℕ) (layout : Layout)
    → All (λ d. 0 < d) dims
    → tensor_size dims < 2 ^ 31
    → infer_tensor_layout dims ≡ some layout
    → (n : ℕ) × (k : ℕ) × Fits layout n k (tensor_size dims)
unfolding infer_tensor_layout
infer_tensor_layout-Fits [] layout h lt e = cc
infer_tensor_layout-Fits (a ∷ []) layout h lt e = cc
infer_tensor_layout-Fits (a ∷ b ∷ []) layout (ha, (hb, h)) lt e =
    layout_of-Fits a b (a * (b * 1)) layout ha hb (omega arith) lt e
infer_tensor_layout-Fits (c ∷ a ∷ b ∷ []) layout (hc, (ha, (hb, h))) lt e =
    layout_of-Fits a b (c * (a * (b * 1))) layout ha hb
      (omega (arith, factor_le_right c (a * b) hc, ap (λ k. c * (a * k)) (times_one b))) lt e
  where
    times_one : (k : ℕ) → k * 1 ≡ k
    times_one k = omega arith
infer_tensor_layout-Fits (a ∷ b ∷ c ∷ d ∷ ds) layout h lt e = cc

pub read-some :
    (A : Type 0) (values : List A) (n k row attr : ℕ) (attr_major : Bool)
    → n * k ≤ length values
    → length values < 2 ^ 31
    → row < n
    → attr < k
    → (x : A) × (read_tensor_value values n k attr_major row attr ≡ some x)
unfolding read_tensor_value
read-some A values n k row attr true le lt hr ha =
    let inside : attr * n + row < length values =
      omega (arith, mul-le-mul_right n ha, mul_comm n k) in
    let (x, e) = get_elem?-some values (attr * n + row) inside in
    (x, rw (lt→ltb (attr * n + row) (2 ^ 31) (omega arith)) e)
read-some A values n k row attr false le lt hr ha =
    let inside : row * k + attr < length values = omega (arith, mul-le-mul_right k hr) in
    let (x, e) = get_elem?-some values (row * k + attr) inside in
    (x, rw (lt→ltb (row * k + attr) (2 ^ 31) (omega arith)) e)

-- A tensor with as many values as its positive dimensions say, fewer than 2^31: where
-- `inferTensorLayout` finds a layout, its rows and attributes are not negative, the attributes are six
-- at least, and `readTensorValue` reads every cell of it within the tensor.
pub infer_tensor_layout-cells :
    {A : Type 0} (values : List A) (dims : List ℕ) (layout : Layout)
    → All (λ d. 0 < d) dims
    → length values ≡ tensor_size dims
    → tensor_size dims < 2 ^ 31
    → infer_tensor_layout dims ≡ some layout
    → (n : ℕ) × (k : ℕ) × Fits layout n k (tensor_size dims)
      × ((row attr : ℕ)
          → row < n
          → attr < k
          → (x : A) × (read_tensor_value values n k layout.attr_major row attr ≡ some x))
infer_tensor_layout-cells {A} values dims layout h size lt e =
    let (n, k, f) = infer_tensor_layout-Fits dims layout h lt e in
    (
      n,
      k,
      f,
      λ row attr hr ha.
          read-some A values n k row attr layout.attr_major (omega (arith, f.cells)) (omega arith)
            hr ha,
    )

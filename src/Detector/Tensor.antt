-- ===== src/Detector/Tensor.antt =====
-- The layout of an output tensor: `inferTensorLayout` and `readTensorValue`.
pub mod Cells
use edgevision_rv1126b.Prelude.{
  ℕ, ◌+◌, ◌-◌, ◌*◌, ◌^◌, Bool, true, false, List, [], ◌∷◌, Option, none, some, ltb, leb,
  if◌then◌else◌, get_elem?,
}
use edgevision_rv1126b.Prelude.Int.{ℤ, pos, negsuc}

-- `static_cast<int>` of a `uint32_t`.
abbrev pub int_of : ℕ → ℤ
int_of n = if ltb n (2 ^ 31) then pos n else negsuc (2 ^ 32 - n - 1)

pub record Layout : Type 0 where
  pub rows : ℤ
  pub attrs : ℤ
  pub attr_major : Bool

-- The branches on the last two dimensions.
abbrev pub layout_of : ℕ → ℕ → Option Layout
layout_of second_last last =
    if leb 6 last
    then some (record { rows = int_of second_last; attrs = int_of last; attr_major = false })
    else if leb 6 second_last
    then some (record { rows = int_of last; attrs = int_of second_last; attr_major = true })
    else none

-- `none` is the answer false.
unfoldable pub infer_tensor_layout : List ℕ → Option Layout
infer_tensor_layout (d0 ∷ d1 ∷ []) = layout_of d0 d1
infer_tensor_layout (d0 ∷ d1 ∷ d2 ∷ []) = layout_of d1 d2
infer_tensor_layout _ = none

-- Here `none` is undefined behaviour: an index past the end of the tensor, or one that overflows.
unfoldable pub read_tensor_value {ℓ} : {A : Type ℓ} → List A → ℕ → ℕ → Bool → ℕ → ℕ → Option A
read_tensor_value values rows attrs attr_major row attr =
    let index : ℕ = if attr_major then attr * rows + row else row * attrs + attr in
    if ltb index (2 ^ 31) then get_elem? values index else none

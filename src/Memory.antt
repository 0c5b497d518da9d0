-- ===== src/Memory.antt =====
-- `memcpy` on byte buffers, and the loop over the rows of an image that camera/src/CameraDevice.cpp
-- and camera/src/H264Encoder.cpp both write. A byte read or written outside of its buffer is undefined
-- behaviour, and gives `none`. `size_t` has 64 bits, and no offset below comes near 2^64.
pub mod Rows
pub mod Planes
use edgevision_rv1126b.Prelude.{
  ℕ, zero, suc, ◌+◌, ◌*◌, ◌/◌, List, Option, none, some, ltb, if◌then◌else◌, length, get_elem?, set,
  ◌>>=◌,
}

-- `memcpy(dst + to, src + from, n)`, byte by byte.
unfoldable pub memcpy : List ℕ → ℕ → List ℕ → ℕ → ℕ → Option (List ℕ)
memcpy dst to src from zero = some dst
memcpy dst to src from (suc n) = get_elem? src from >>= λ byte.
    if ltb to (length dst) then memcpy (set dst to byte) (to + 1) src (from + 1) n else none

-- The loop over `n` rows from `row` on: the base and the stride of the destination, then those of the
-- source, and the bytes of a row.
unfoldable pub copy_rows : ℕ → ℕ → List ℕ → ℕ → ℕ → List ℕ → ℕ → ℕ → ℕ → Option (List ℕ)
copy_rows zero row dst to to_stride src from from_stride width = some dst
copy_rows (suc n) row dst to to_stride src from from_stride width =
    memcpy dst (to + row * to_stride) src (from + row * from_stride) width >>= λ after.
    copy_rows n (row + 1) after to to_stride src from from_stride width

-- The two loops that copy an NV12 image: `height` rows of luma, and half as many of chroma from the two
-- chroma bases on.
unfoldable pub copy_planes : ℕ → ℕ → List ℕ → ℕ → ℕ → List ℕ → ℕ → ℕ → Option (List ℕ)
unfolding copy_rows
copy_planes width height dst to_stride to_chroma src from_stride from_chroma =
    copy_rows height 0 dst 0 to_stride src 0 from_stride width >>= λ luma_done.
    copy_rows (height / 2) 0 luma_done to_chroma to_stride src from_chroma from_stride width

-- ===== src/CameraDevice/Packing.antt =====
-- `captureFrame` on a buffer with padded rows.
use native.Mathlib.Nat.{mul-le-mul_right, div-eq_of_lt-le, mod-eq_of_lt}
use edgevision_rv1126b.Prelude.{
  ℕ, suc, ◌+◌, ◌*◌, ◌/◌, ◌%◌, ◌^◌, ◌≤◌, ◌<◌, ◌≡◌, ap, ◌∙◌, List, some, arith, length, get_elem?,
  if◌then◌else◌, none,
}
use edgevision_rv1126b.Prelude.Int.{pos}
use edgevision_rv1126b.Memory.{copy_planes}
use edgevision_rv1126b.Memory.Planes.{PlanesCopied, PlanesFit, copy_planes-PlanesCopied}
use edgevision_rv1126b.CameraDevice.{
  CameraDevice, Dequeued, Shot, derive_vir_height, source_stride, frame_bytes, copy_frame,
  capture_frame,
}

-- The layout that a driver with 2 * `half` padded rows of luma gives a frame: both planes, and less than
-- a row and a half behind them.
pub record Layout (camera : CameraDevice) (frame : Dequeued) (half rest : ℕ) : Type 0 where
  pub size : frame_bytes camera frame ≡ 3 * (source_stride camera * half) + rest
  pub small : 2 * rest < 3 * source_stride camera
  pub filled : frame_bytes camera frame ≤ length frame.contents
  pub word : frame_bytes camera frame < 2 ^ 32
  pub wide : camera.width ≤ source_stride camera
  pub tall : camera.height ≤ 2 * half

-- `derive_vir_height` finds the padded rows.
pub derive_vir_height-padded :
    (stride half rest height : ℕ)
    → 2 * rest < 3 * stride
    → 3 * (stride * half) + rest < 2 ^ 32
    → height ≤ 2 * half
    → derive_vir_height (3 * (stride * half) + rest) stride height ≡ 2 * half
unfolding derive_vir_height
derive_vir_height-padded stride half rest height small word tall =
    ground (arith, quotient, less, wraps)
  where
    less : half ≤ stride * half
    less = let some_row : 0 < stride = omega arith in omega (arith, mul-le-mul_right half some_row)

    quotient : (3 * (stride * half) + rest) * 2 / (stride * 3) ≡ 2 * half
    quotient = div-eq_of_lt-le (stride * 3) (grind arith) (grind arith)

    wraps : 2 * half % 2 ^ 32 ≡ 2 * half
    wraps = mod-eq_of_lt (omega (arith, less))

module _ (camera : CameraDevice) (frame : Dequeued) (half rest : ℕ)
    (layout : Layout camera frame half rest) where
  frame_fits :
      PlanesFit camera.width camera.height
        (source_stride camera)
        (source_stride camera * (2 * half))
        (length frame.contents)
  frame_fits = record {
    wide = layout.wide;
    luma = omega (arith, mul-le-mul_right (source_stride camera) layout.tall);
    chroma =
        let halves : camera.height / 2 ≤ half = omega (arith, layout.tall) in
        omega (arith, layout.size, layout.filled, mul-le-mul_right (source_stride camera) halves);
  }

  copy_frame-padded :
      (out : List ℕ)
      → copy_frame camera frame out
        ≡ copy_planes camera.width camera.height out camera.width
            (camera.width * camera.height)
            frame.contents
            (source_stride camera)
            (source_stride camera * (2 * half))
  unfolding copy_frame
  copy_frame-padded out =
      ap
        (λ rows.
          copy_planes camera.width camera.height out camera.width (camera.width * camera.height)
            frame.contents (source_stride camera) (source_stride camera * rows))
        same_rows
    where
      same_rows :
          derive_vir_height (frame_bytes camera frame) (source_stride camera) camera.height
          ≡ 2 * half
      same_rows = rw layout.size (
          derive_vir_height-padded (source_stride camera) half rest camera.height layout.small
            (omega (arith, layout.size, layout.word)) layout.tall)

-- A call that dequeues a frame, by the copy.
capture_frame_taken :
    (camera : CameraDevice) (shot : Shot) (frame : Dequeued) (out packed : List ℕ) (r size : ℕ)
    → shot.select_result ≡ pos (suc r)
    → shot.dequeued ≡ some frame
    → get_elem? camera.buffers frame.index ≡ some size
    → copy_frame camera frame out ≡ some packed
    → capture_frame camera shot out
      ≡ some (record {
        answer = shot.requeues;
        out = packed;
        given_back = if shot.requeues then some frame.index else none;
      })
unfolding capture_frame
capture_frame_taken camera shot frame out packed r size selected taken mapped copied =
    rw (selected, taken, mapped, copied) (ground arith)

-- A frame that the driver has filled is packed, whatever stride and padding it has: `captureFrame`
-- reads no byte outside of the frame, every pixel of luma and chroma of the picture is in the buffer of
-- the caller, and the bytes behind it stay. The answer is true just when the driver takes the buffer
-- back; if `VIDIOC_QBUF` fails, the picture is there all the same, and the buffer stays dequeued.
pub capture_frame-Packed :
    (camera : CameraDevice) (shot : Shot) (frame : Dequeued) (out : List ℕ) (r size half rest : ℕ)
    → shot.select_result ≡ pos (suc r)
    → shot.dequeued ≡ some frame
    → get_elem? camera.buffers frame.index ≡ some size
    → Layout camera frame half rest
    → camera.width * camera.height + camera.height / 2 * camera.width ≤ length out
    → (packed : List ℕ) × (capture_frame camera shot out
        ≡ some (record {
          answer = shot.requeues;
          out = packed;
          given_back = if shot.requeues then some frame.index else none;
        }))
      × PlanesCopied camera.width camera.height out camera.width
          (camera.width * camera.height)
          frame.contents
          (source_stride camera)
          (source_stride camera * (2 * half))
          packed
capture_frame-Packed camera shot frame out r size half rest selected taken mapped layout room =
    let (packed, copied, planes) =
      copy_planes-PlanesCopied out camera.width (camera.width * camera.height) frame.contents
        (source_stride camera) (source_stride camera * (2 * half)) packed_fits
        (frame_fits camera frame half rest layout) in
    (
      packed,
      capture_frame_taken camera shot frame out packed r size selected taken mapped
          (copy_frame-padded camera frame half rest layout out ∙ copied),
      planes,
    )
  where
    packed_fits :
        PlanesFit camera.width camera.height camera.width
          (camera.width * camera.height)
          (length out)
    packed_fits = record { wide = omega arith; luma = omega arith; chroma = room }

-- ===== src/CameraDevice.antt =====
-- camera/src/CameraDevice.cpp: the V4L2 capture device. The answers of the system calls are inputs;
-- the program writes frames out of mapped buffers whose rows are padded, into packed ones. Sizes that
-- the driver reports as `int` are below 2^31, so they are natural numbers.
pub mod Packing
pub mod Opening
mod Tests
use edgevision_rv1126b.Prelude.{
  ℕ, zero, suc, ◌+◌, ◌*◌, ◌/◌, ◌%◌, ◌^◌, Bool, true, false, not, ◌||◌, List, [], ◌∷◌, ◌++◌, Option,
  none, some, ltb, ◌==◌, if◌then◌else◌, get_elem?, length, max, ◌>>=◌,
}
use edgevision_rv1126b.Prelude.Int.{ℤ, pos, ltb_ℤ}
use edgevision_rv1126b.Memory.{copy_planes}

-- `derive_vir_height`: the rows of the luma plane with its padding, by the size of the whole image.
unfoldable pub derive_vir_height : ℕ → ℕ → ℕ → ℕ
derive_vir_height size_image bytes_per_line visible_height =
    let numerator = size_image * 2 in
    let denominator = bytes_per_line * 3 in
    if size_image == 0 || bytes_per_line == 0
    then visible_height
    else if denominator == 0
    then visible_height
    else max (numerator / denominator % 2 ^ 32) visible_height

-- The mapped buffers by their lengths.
pub record CameraDevice : Type 0 where
  pub fd : ℕ
  pub buffers : List ℕ
  pub width : ℕ
  pub height : ℕ
  pub bytes_per_line : ℕ
  pub size_image : ℕ
  pub source_vir_height : ℕ

-- The constructor, over the answer of `open` and the capability of multi-planar capture that
-- VIDIOC_QUERYCAP reports, if it succeeds. `none` is the exit of the process.
unfoldable pub create : Option ℕ → Option Bool → Option CameraDevice
create opened capability = opened >>= λ fd. capability >>= λ multiplanar.
    if multiplanar
    then some (record {
      fd = fd;
      buffers = [];
      width = 0;
      height = 0;
      bytes_per_line = 0;
      size_image = 0;
      source_vir_height = 0;
    })
    else none

-- What VIDIOC_S_FMT settles on, as far as the program reads it.
pub record Format : Type 0 where
  pub width : ℕ
  pub height : ℕ
  pub bytes_per_line : ℕ
  pub size_image : ℕ

-- The answers of the calls of `initCamera`, `none` and `false` where one fails.
pub record Driver : Type 0 where
  pub set_format : Option Format
  pub request_buffers : Option ℕ
  pub query_buffer : ℕ → Option ℕ
  pub map_buffer : ℕ → Bool
  pub queue_buffer : ℕ → Bool

-- `initCamera`, the format.
unfoldable pub use_format : CameraDevice → Format → CameraDevice
unfolding derive_vir_height
use_format camera format =
    let bytes_per_line =
      if format.bytes_per_line == 0 then format.width else format.bytes_per_line in
    record camera {
      width = format.width;
      height = format.height;
      bytes_per_line = bytes_per_line;
      size_image = format.size_image;
      source_vir_height = derive_vir_height format.size_image bytes_per_line format.height;
    }

-- One round of the loop over the buffers: the length of the mapped buffer.
unfoldable pub map_one : Driver → ℕ → Option ℕ
map_one driver i = driver.query_buffer i >>= λ size.
    if driver.map_buffer i then if driver.queue_buffer i then some size else none else none

-- The loop, `n` buffers from `i` on.
unfoldable pub map_buffers : Driver → ℕ → ℕ → Option (List ℕ)
unfolding map_one
map_buffers driver zero i = some []
map_buffers driver (suc n) i =
    map_one driver i >>= λ size. map_buffers driver n (i + 1) >>= λ sizes. some (size ∷ sizes)

-- `none` is the exit of the process, behind `close(fd)`.
unfoldable pub init_camera : CameraDevice → Driver → Option CameraDevice
unfolding use_format map_buffers
init_camera camera driver = driver.set_format >>= λ format. driver.request_buffers >>= λ count.
    map_buffers driver count 0 >>= λ buffers.
    some (record (use_format camera format) { buffers = buffers })

-- `startStream`, over the answer of VIDIOC_STREAMON; `none` is the exit of the process.
unfoldable pub start_stream : CameraDevice → Bool → Option CameraDevice
start_stream camera streams = if streams then some camera else none

-- A frame that VIDIOC_DQBUF hands out, and what the memory of its buffer holds.
pub record Dequeued : Type 0 where
  pub index : ℕ
  pub bytes_used : ℕ
  pub contents : List ℕ

-- The answers of the calls of `captureFrame`.
pub record Shot : Type 0 where
  pub select_result : ℤ
  pub dequeued : Option Dequeued
  pub requeues : Bool

-- What a call of `captureFrame` leaves: its result, the buffer of the caller, and the buffer that
-- the driver has taken back: none if VIDIOC_QBUF fails.
pub record Captured : Type 0 where
  pub answer : Bool
  pub out : List ℕ
  pub given_back : Option ℕ

unfoldable pub source_stride : CameraDevice → ℕ
source_stride camera = if camera.bytes_per_line == 0 then camera.width else camera.bytes_per_line

-- The size by which `captureFrame` finds the chroma plane.
unfoldable pub frame_bytes : CameraDevice → Dequeued → ℕ
frame_bytes camera frame = if frame.bytes_used == 0 then camera.size_image else frame.bytes_used

-- The two loops of `captureFrame`.
unfoldable pub copy_frame : CameraDevice → Dequeued → List ℕ → Option (List ℕ)
unfolding source_stride frame_bytes
copy_frame camera frame out =
    let stride = source_stride camera in
    let vir_height = derive_vir_height (frame_bytes camera frame) stride camera.height in
    copy_planes camera.width camera.height out camera.width (camera.width * camera.height)
      frame.contents stride (stride * vir_height)

-- `none` is undefined behaviour: a buffer that is not there, or a copy past the end of one.
unfoldable pub capture_frame : CameraDevice → Shot → List ℕ → Option Captured
capture_frame camera shot out =
    if not (ltb_ℤ (pos 0) shot.select_result)
    then some (record { answer = false; out = out; given_back = none })
    else elim shot.dequeued [
      | none ↦ some (record { answer = false; out = out; given_back = none })
      | some frame ↦ get_elem? camera.buffers frame.index >>= λ size.
          copy_frame camera frame out >>= λ packed. some (record {
            answer = shot.requeues;
            out = packed;
            given_back = if shot.requeues then some frame.index else none;
          })
    ]

unfoldable pub packed_frame_size : CameraDevice → ℕ
packed_frame_size camera = camera.width * camera.height * 3 / 2

-- The destructor, after `initCamera`: the buffers that `munmap` releases, by their lengths, and the
-- descriptor that is closed.
unfoldable pub destroy : CameraDevice → List ℕ × ℕ
destroy camera = (camera.buffers, camera.fd)

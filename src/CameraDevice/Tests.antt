-- ===== src/CameraDevice/Tests.antt =====
-- A picture of one column and two rows, in rows of two bytes.
use edgevision_rv1126b.Prelude.{ℕ, ◌*◌, ◌≡◌, refl, true, false, List, [], ◌∷◌, none, some, arith}
use edgevision_rv1126b.Prelude.Int.{pos}
use edgevision_rv1126b.Memory.{memcpy, copy_planes}
use edgevision_rv1126b.Memory.Planes.{PlanesCopied}
use edgevision_rv1126b.CameraDevice.{
  CameraDevice, Driver, Dequeued, Shot, init_camera, capture_frame, copy_frame, source_stride,
  frame_bytes, derive_vir_height,
}
use edgevision_rv1126b.CameraDevice.Packing.{Layout, capture_frame-Packed}
use edgevision_rv1126b.CameraDevice.Opening.{Initialized, init_camera-Initialized}

abbrev closed_camera : CameraDevice
closed_camera = record {
  fd = 3;
  buffers = [];
  width = 0;
  height = 0;
  bytes_per_line = 0;
  size_image = 0;
  source_vir_height = 0;
}

abbrev driver : Driver
driver = record {
  set_format = some (record { width = 1; height = 2; bytes_per_line = 2; size_image = 7 });
  request_buffers = some 2;
  query_buffer = λ i. some 7;
  map_buffer = λ i. true;
  queue_buffer = λ i. true;
}

abbrev camera : CameraDevice
camera = record closed_camera {
  buffers = 7 ∷ 7 ∷ [];
  width = 1;
  height = 2;
  bytes_per_line = 2;
  size_image = 7;
  source_vir_height = 2;
}

init_camera_test : init_camera closed_camera driver ≡ some camera
unfolding init_camera
init_camera_test = refl

abbrev frame : Dequeued
frame = record { index = 1; bytes_used = 7; contents = 10 ∷ 11 ∷ 12 ∷ 13 ∷ 14 ∷ 15 ∷ 16 ∷ [] }

abbrev shot : Shot
shot = record { select_result = pos 1; dequeued = some frame; requeues = true }

capture_frame_test :
    capture_frame camera shot (0 ∷ 0 ∷ 0 ∷ [])
    ≡ some (record { answer = true; out = 10 ∷ 12 ∷ 14 ∷ []; given_back = some 1 })
unfolding capture_frame copy_frame copy_planes memcpy derive_vir_height
capture_frame_test = refl

-- The driver does not take the buffer back.
capture_frame_kept :
    capture_frame camera (record shot { requeues = false }) (0 ∷ 0 ∷ 0 ∷ [])
    ≡ some (record { answer = false; out = 10 ∷ 12 ∷ 14 ∷ []; given_back = none })
unfolding capture_frame copy_frame copy_planes memcpy derive_vir_height
capture_frame_kept = refl

-- After a timeout nothing is touched.
capture_frame_timeout :
    capture_frame camera (record shot { select_result = pos 0 }) (0 ∷ [])
    ≡ some (record { answer = false; out = 0 ∷ []; given_back = none })
unfolding capture_frame
capture_frame_timeout = refl

-- A buffer that is too small for the packed frame.
capture_frame_small : capture_frame camera shot (0 ∷ 0 ∷ []) ≡ none
unfolding capture_frame copy_frame copy_planes memcpy derive_vir_height
capture_frame_small = refl

frame_layout : Layout camera frame 1 1
unfolding frame_bytes source_stride
frame_layout = omega arith

capture_frame-Packed_example :
    (packed : List ℕ) × (capture_frame camera shot (0 ∷ 0 ∷ 0 ∷ [])
      ≡ some (record { answer = true; out = packed; given_back = some 1 }))
    × PlanesCopied 1 2
        (0 ∷ 0 ∷ 0 ∷ [])
        1
        2
        frame.contents
        (source_stride camera)
        (source_stride camera * (2 * 1))
        packed
capture_frame-Packed_example =
    capture_frame-Packed camera shot frame (0 ∷ 0 ∷ 0 ∷ []) 0 7 1 1 refl refl refl frame_layout
      (omega arith)

init_camera-Initialized_example :
    Initialized closed_camera driver (init_camera closed_camera driver)
init_camera-Initialized_example = init_camera-Initialized closed_camera driver

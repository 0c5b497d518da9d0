-- ===== src/H264Encoder/Tests.antt =====
-- An encoder for a picture of one column and two rows, aligned to two columns.
use edgevision_rv1126b.Prelude.{
  ℕ, ◌≡◌, refl, true, false, List, [], ◌∷◌, ◌++◌, none, some, arith, replicate,
}
use edgevision_rv1126b.Text.{ascii}
use edgevision_rv1126b.Memory.{memcpy, copy_planes}
use edgevision_rv1126b.Memory.Planes.{PlanesCopied}
use edgevision_rv1126b.H264Encoder.{
  H264Encoder, nv12, nv21, Sdk, sys_init, ChannelAttr, create_channel, set_channel_param,
  start_receiving, request_idr, alloc, stop_receiving, destroy_channel, wait_free, sys_exit, free,
  create, init_encoder, destroy_encoder, detect_input_pixel_format,
}
use edgevision_rv1126b.H264Encoder.Encode.{Codec, Encoded, encode, fill_input, send_frame}
use edgevision_rv1126b.H264Encoder.Lifetime.{
  nothing, held_by, replay, IsIdle, init_encoder-balanced,
}
use edgevision_rv1126b.H264Encoder.Buffers.{IsReady}
use edgevision_rv1126b.H264Encoder.Encoding.{Outcome, encode-Outcome}

chroma_order_test : detect_input_pixel_format (some (ascii "Nv21")) ≡ nv21
unfolding detect_input_pixel_format
chroma_order_test = refl

chroma_order_default : detect_input_pixel_format (some (ascii "nv")) ≡ nv12
unfolding detect_input_pixel_format
chroma_order_default = refl

abbrev new : H264Encoder
new = record {
  width = 1;
  height = 2;
  fps = 30;
  sys_initialized = false;
  channel_created = false;
  pts = 0;
  frame_size = 3;
  input_buffer_size = 0;
  vir_width = 0;
  vir_height = 0;
  input_pixel_format = nv12;
  input_buffer = none;
  input_vir_addr = none;
}

create_test : create 1 2 30 none ≡ new
unfolding create
create_test = refl

abbrev sdk : Sdk
sdk = record {
  initializes = true;
  pic_size = some (record { vir_width = 2; vir_height = 2; mb_size = 6 });
  creates_channel = true;
  gets_param = true;
  sets_param = true;
  starts_receiving = true;
  allocated = some 5;
  vir_addr = some (9 ∷ 9 ∷ 9 ∷ 9 ∷ 9 ∷ 9 ∷ []);
}

abbrev ready : H264Encoder
ready = record new {
  sys_initialized = true;
  channel_created = true;
  input_buffer_size = 6;
  vir_width = 2;
  vir_height = 2;
  input_buffer = some 5;
  input_vir_addr = some (9 ∷ 9 ∷ 9 ∷ 9 ∷ 9 ∷ 9 ∷ []);
}

abbrev attr : ChannelAttr
attr = record {
  pixel_format = nv12;
  pic_width = 1;
  pic_height = 2;
  vir_width = 2;
  vir_height = 2;
  stream_buf_cnt = 1;
  buf_size = 6;
  gop = 30;
  bit_rate = 4096;
  frame_rate = 30;
}

init_encoder_test : init_encoder new sdk ≡ record {
  encoder = ready;
  answer = true;
  calls =
      sys_init
      ∷ create_channel attr
      ∷ set_channel_param 1 1
      ∷ start_receiving
      ∷ alloc 5
      ∷ request_idr
      ∷ [];
}
unfolding init_encoder
init_encoder_test = refl

destroy_encoder_test :
    (destroy_encoder ready).1
    ≡ stop_receiving ∷ destroy_channel ∷ free 5 ∷ wait_free ∷ sys_exit ∷ []
unfolding destroy_encoder
destroy_encoder_test = refl

idle : IsIdle new
idle = record { no_system = refl; no_channel = refl; no_memory = refl }

init_encoder-balanced_example :
    let started = init_encoder new sdk in
    let (closed, calls) = destroy_encoder started.encoder in
    (replay nothing started.calls ≡ some (held_by started.encoder))
    × (replay (held_by started.encoder) calls ≡ some nothing)
    × IsIdle closed
    × (destroy_encoder closed ≡ (closed, []))
init_encoder-balanced_example = init_encoder-balanced new sdk idle

abbrev codec : Codec
codec = record {
  flushes = true;
  sends = true;
  stream = some (
      record { block = some (1 ∷ 2 ∷ 3 ∷ []); offset = 1; len = 2 }
      ∷ record { block = none; offset = 0; len = 7 }
      ∷ record { block = some (4 ∷ []); offset = 0; len = 1 }
      ∷ []);
}

encode_test :
    encode ready codec (10 ∷ 12 ∷ 14 ∷ [])
    ≡ some (record {
      encoder = record ready { pts = 1; input_vir_addr = some (10 ∷ 0 ∷ 12 ∷ 0 ∷ 14 ∷ 0 ∷ []) };
      answer = true;
      out_h264 = 2 ∷ 3 ∷ 4 ∷ [];
      offered = some (record {
        pixels = 10 ∷ 0 ∷ 12 ∷ 0 ∷ 14 ∷ 0 ∷ [];
        width = 1;
        height = 2;
        vir_width = 2;
        vir_height = 2;
        pixel_format = nv12;
        pts = 0;
      });
      released = true;
    })
unfolding encode fill_input send_frame copy_planes memcpy
encode_test = refl

ready-IsReady : IsReady ready 5 (9 ∷ 9 ∷ 9 ∷ 9 ∷ 9 ∷ 9 ∷ [])
ready-IsReady = ground arith

encode-Outcome_example :
    (pixels : List ℕ) × (after : Encoded) × (encode ready codec (10 ∷ 12 ∷ 14 ∷ []) ≡ some after)
    × PlanesCopied 1 2 (replicate 6 0 ++ []) 2 4 (10 ∷ 12 ∷ 14 ∷ []) 1 2 pixels
    × Outcome ready codec pixels after
    × IsReady after.encoder 5 pixels
encode-Outcome_example =
    encode-Outcome ready 5 (9 ∷ 9 ∷ 9 ∷ 9 ∷ 9 ∷ 9 ∷ []) codec (10 ∷ 12 ∷ 14 ∷ []) ready-IsReady
      (omega arith) (omega arith)

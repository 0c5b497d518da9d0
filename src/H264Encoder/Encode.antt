-- ===== src/H264Encoder/Encode.antt =====
-- `encode` of camera/src/H264Encoder.cpp: the aligned picture, the frame that is sent and the packet that
-- comes back.
use edgevision_rv1126b.Prelude.{
  ℕ, ◌+◌, ◌%◌, ◌^◌, Bool, true, false, not, List, [], ◌∷◌, ◌++◌, Option, none, some, leb,
  if◌then◌else◌, length, take, drop, replicate, is_empty, ◌>>=◌,
}
use edgevision_rv1126b.H264Encoder.{H264Encoder, PixelFormat, copy_compact_nv12_to_aligned_buffer}

-- `memset(input_vir_addr, 0, input_buffer_size)`.
unfoldable pub zeroed : List ℕ → ℕ → Option (List ℕ)
zeroed memory size =
    if leb size (length memory) then some (replicate size 0 ++ drop size memory) else none

-- VIDEO_FRAME_INFO_S as far as it depends on the state; `pixels` is what the input buffer holds.
pub record VideoFrame : Type 0 where
  pub pixels : List ℕ
  pub width : ℕ
  pub height : ℕ
  pub vir_width : ℕ
  pub vir_height : ℕ
  pub pixel_format : PixelFormat
  pub pts : ℕ

-- A packet of the encoder's output: the memory of its block, if that has an address, and where the
-- packet lies in it.
pub record Pack : Type 0 where
  pub block : Option (List ℕ)
  pub offset : ℕ
  pub len : ℕ

-- The answers of the calls of `encode`; `stream` is what RK_MPI_VENC_GetStream hands out.
pub record Codec : Type 0 where
  pub flushes : Bool
  pub sends : Bool
  pub stream : Option (List Pack)

abbrev pub stream_pack_count : ℕ
stream_pack_count = 8

-- `insert(end, packet_data, packet_data + u32Len)`; `none` is a read past the end of the block.
unfoldable pub append_pack : List ℕ → Pack → Option (List ℕ)
append_pack out pack = elim pack.block [
  | none ↦ some out
  | some memory ↦
      if leb (pack.offset + pack.len) (length memory)
      then some (out ++ take pack.len (drop pack.offset memory))
      else none
]

unfoldable pub append_packs : List ℕ → List Pack → Option (List ℕ)
unfolding append_pack
append_packs out [] = some out
append_packs out (pack ∷ packs) = append_pack out pack >>= λ longer. append_packs longer packs

-- What a call of `encode` leaves: its result, the packet, the frame that was given to the encoder, and
-- whether the stream was released.
pub record Encoded : Type 0 where
  pub encoder : H264Encoder
  pub answer : Bool
  pub out_h264 : List ℕ
  pub offered : Option VideoFrame
  pub released : Bool

abbrev pub give_up : H264Encoder → Option VideoFrame → Encoded
give_up encoder offered = record {
  encoder = encoder;
  answer = false;
  out_h264 = [];
  offered = offered;
  released = false;
}

-- From RK_MPI_VENC_GetStream on. At most `stream_pack_count` packets have a place.
unfoldable pub take_stream : H264Encoder → Codec → VideoFrame → Option Encoded
unfolding append_packs
take_stream encoder codec frame = elim codec.stream [
  | none ↦ some (give_up encoder (some frame))
  | some packs ↦
      if leb (length packs) stream_pack_count
      then (append_packs [] packs >>= λ out. some (record {
        encoder = encoder;
        answer = not (is_empty out);
        out_h264 = out;
        offered = some frame;
        released = true;
      }))
      else none
]

-- From the flush of the cache on.
unfoldable pub send_frame : H264Encoder → Codec → List ℕ → Option Encoded
unfolding take_stream
send_frame encoder codec pixels =
    let frame : VideoFrame = record {
      pixels = pixels;
      width = encoder.width;
      height = encoder.height;
      vir_width = encoder.vir_width;
      vir_height = encoder.vir_height;
      pixel_format = encoder.input_pixel_format;
      pts = encoder.pts;
    } in
    let counted = record encoder { pts = (encoder.pts + 1) % 2 ^ 64 } in
    if not codec.flushes
    then some (give_up encoder none)
    else if not codec.sends
    then some (give_up counted (some frame))
    else take_stream counted codec frame

-- The copy of the picture into the memory of the input buffer.
unfoldable pub fill_input : H264Encoder → List ℕ → List ℕ → Option (List ℕ)
unfolding zeroed copy_compact_nv12_to_aligned_buffer
fill_input encoder memory yuv_data = zeroed memory encoder.input_buffer_size >>= λ empty.
    copy_compact_nv12_to_aligned_buffer yuv_data empty encoder.width encoder.height
      encoder.vir_width encoder.vir_height

-- `none` is undefined behaviour.
unfoldable pub encode : H264Encoder → Codec → List ℕ → Option Encoded
encode encoder codec yuv_data = elim encoder.input_buffer [
  | none ↦ some (give_up encoder none)
  | some block ↦ elim encoder.input_vir_addr [
    | none ↦ some (give_up encoder none)
    | some memory ↦ fill_input encoder memory yuv_data >>= λ pixels.
        send_frame (record encoder { input_vir_addr = some pixels }) codec pixels
  ]
]

-- ===== src/H264Encoder.antt =====
-- camera/src/H264Encoder.cpp: the hardware encoder. The answers of the Rockchip media library are
-- inputs. The calls that take, configure or release something of the library are listed in the order in
-- which they are made. Sizes and the frame rate are `int`s that are not negative.
pub mod Lifetime
pub mod Encode
pub mod Buffers
pub mod Encoding
mod Tests
use edgevision_rv1126b.Prelude.{
  ℕ, ◌+◌, ◌-◌, ◌*◌, ◌/◌, ◌%◌, ◌^◌, Bool, true, false, not, ◌&&◌, ◌||◌, List, [], ◌∷◌, ◌++◌, Option,
  none, some, leb, if◌then◌else◌, map, length, take, drop, replicate, is_empty, ◌>>=◌,
}
use edgevision_rv1126b.Text.{ascii}
use edgevision_rv1126b.AppConfig.{same_text}
use edgevision_rv1126b.Memory.{copy_planes}

-- RK_FMT_YUV420SP and RK_FMT_YUV420SP_VU.
pub data PixelFormat : Type 0 where
  nv12 nv21 : PixelFormat

unfoldable pub to_lower : ℕ → ℕ
to_lower ch = if leb b'A' ch && leb ch b'Z' then ch - b'A' + b'a' else ch

-- Over the value of CAMV3_CHROMA_ORDER.
unfoldable pub detect_input_pixel_format : Option (List ℕ) → PixelFormat
unfolding to_lower
detect_input_pixel_format none = nv12
detect_input_pixel_format (some order) =
    let value = map to_lower order in
    if same_text value (ascii "nv21") || same_text value (ascii "vu") then nv21 else nv12

unfoldable pub copy_compact_nv12_to_aligned_buffer :
    List ℕ → List ℕ → ℕ → ℕ → ℕ → ℕ → Option (List ℕ)
copy_compact_nv12_to_aligned_buffer src dst width height vir_width vir_height =
    copy_planes width height dst vir_width (vir_width * vir_height) src width (width * height)

-- `input_vir_addr` is the memory that it points to.
pub record H264Encoder : Type 0 where
  pub width : ℕ
  pub height : ℕ
  pub fps : ℕ
  pub sys_initialized : Bool
  pub channel_created : Bool
  pub pts : ℕ
  pub frame_size : ℕ
  pub input_buffer_size : ℕ
  pub vir_width : ℕ
  pub vir_height : ℕ
  pub input_pixel_format : PixelFormat
  pub input_buffer : Option ℕ
  pub input_vir_addr : Option (List ℕ)

-- The initialisers of the constructor.
unfoldable pub create : ℕ → ℕ → ℕ → Option (List ℕ) → H264Encoder
unfolding detect_input_pixel_format
create width height frame_rate order = record {
  width = width;
  height = height;
  fps = frame_rate;
  sys_initialized = false;
  channel_created = false;
  pts = 0;
  frame_size = width * height * 3 / 2;
  input_buffer_size = 0;
  vir_width = 0;
  vir_height = 0;
  input_pixel_format = detect_input_pixel_format order;
  input_buffer = none;
  input_vir_addr = none;
}

-- VENC_CHN_ATTR_S, without its constants: H.264 of the baseline profile by frames, at a constant
-- bit rate.
pub record ChannelAttr : Type 0 where
  pub pixel_format : PixelFormat
  pub pic_width : ℕ
  pub pic_height : ℕ
  pub vir_width : ℕ
  pub vir_height : ℕ
  pub stream_buf_cnt : ℕ
  pub buf_size : ℕ
  pub gop : ℕ
  pub bit_rate : ℕ
  pub frame_rate : ℕ

unfoldable pub channel_attr : H264Encoder → ChannelAttr
channel_attr encoder = record {
  pixel_format = encoder.input_pixel_format;
  pic_width = encoder.width;
  pic_height = encoder.height;
  vir_width = encoder.vir_width;
  vir_height = encoder.vir_height;
  stream_buf_cnt = 1;
  buf_size = encoder.input_buffer_size % 2 ^ 32;
  gop = encoder.fps;
  bit_rate = 4096;
  frame_rate = encoder.fps;
}

-- A call of the library that succeeded.
pub data Call : Type 0 where
  sys_init start_receiving request_idr : Call
  create_channel : (attr : ChannelAttr) → Call
  set_channel_param : (max_strm_cnt poll_wake_up_frm_cnt : ℕ) → Call
  alloc : (block : ℕ) → Call
  stop_receiving destroy_channel wait_free sys_exit : Call
  free : (block : ℕ) → Call

pub record PicSize : Type 0 where
  pub vir_width : ℕ
  pub vir_height : ℕ
  pub mb_size : ℕ

-- The answers of the calls of `initEncoder`, `none` and `false` where one fails.
pub record Sdk : Type 0 where
  pub initializes : Bool
  pub pic_size : Option PicSize
  pub creates_channel : Bool
  pub gets_param : Bool
  pub sets_param : Bool
  pub starts_receiving : Bool
  pub allocated : Option ℕ
  pub vir_addr : Option (List ℕ)

-- What `initEncoder` leaves and returns, and the calls that it made.
pub record Started : Type 0 where
  pub encoder : H264Encoder
  pub answer : Bool
  pub calls : List Call

abbrev pub fail : H264Encoder → List Call → Started
fail encoder calls = record { encoder = encoder; answer = false; calls = calls }

-- The stages of `initEncoder`, the last one first, over the calls that were made before.
unfoldable pub map_input : H264Encoder → Sdk → List Call → Started
map_input encoder sdk calls = elim sdk.vir_addr [
  | none ↦ fail encoder calls
  | some memory ↦ record {
    encoder = record encoder { input_vir_addr = some memory };
    answer = true;
    calls = calls ++ request_idr ∷ [];
  }
]

unfoldable pub allocate_input : H264Encoder → Sdk → List Call → Started
unfolding map_input
allocate_input encoder sdk calls = elim sdk.allocated [
  | none ↦ fail encoder calls
  | some block ↦
      map_input (record encoder { input_buffer = some block }) sdk (calls ++ alloc block ∷ [])
]

unfoldable pub tune_channel : H264Encoder → Sdk → List Call → Started
unfolding allocate_input
tune_channel encoder sdk calls =
    if not sdk.gets_param
    then fail encoder calls
    else if not sdk.sets_param
    then fail encoder calls
    else if not sdk.starts_receiving
    then fail encoder (calls ++ set_channel_param 1 1 ∷ [])
    else allocate_input encoder sdk (calls ++ set_channel_param 1 1 ∷ start_receiving ∷ [])

unfoldable pub open_channel : H264Encoder → Sdk → List Call → Started
unfolding tune_channel channel_attr
open_channel encoder sdk calls =
    if sdk.creates_channel
    then tune_channel (record encoder { channel_created = true }) sdk
        (calls ++ create_channel (channel_attr encoder) ∷ [])
    else fail encoder calls

unfoldable pub size_pictures : H264Encoder → Sdk → List Call → Started
unfolding open_channel
size_pictures encoder sdk calls = elim sdk.pic_size [
  | none ↦ fail encoder calls
  | some pic ↦
      open_channel
        (record encoder {
          vir_width = pic.vir_width;
          vir_height = pic.vir_height;
          input_buffer_size = pic.mb_size;
        })
        sdk calls
]

unfoldable pub init_encoder : H264Encoder → Sdk → Started
unfolding size_pictures
init_encoder encoder sdk =
    if sdk.initializes
    then size_pictures (record encoder { sys_initialized = true }) sdk (sys_init ∷ [])
    else fail encoder []

-- The three parts of `destroyEncoder`.
unfoldable pub drop_channel : H264Encoder → H264Encoder × List Call
drop_channel encoder =
    if encoder.channel_created
    then (record encoder { channel_created = false }, stop_receiving ∷ destroy_channel ∷ [])
    else (encoder, [])

unfoldable pub drop_input : H264Encoder → H264Encoder × List Call
drop_input encoder = elim encoder.input_buffer [
  | none ↦ (encoder, [])
  | some block ↦ (record encoder { input_buffer = none; input_vir_addr = none }, free block ∷ [])
]

unfoldable pub drop_system : H264Encoder → H264Encoder × List Call
drop_system encoder =
    if encoder.sys_initialized
    then (record encoder { sys_initialized = false }, wait_free ∷ sys_exit ∷ [])
    else (encoder, [])

unfoldable pub destroy_encoder : H264Encoder → H264Encoder × List Call
unfolding drop_channel drop_input drop_system
destroy_encoder encoder =
    let (without_channel, first) = drop_channel encoder in
    let (without_input, second) = drop_input without_channel in
    let (closed, third) = drop_system without_input in (closed, first ++ second ++ third)

-- ===== src/H264Encoder/Encoding.antt =====
-- One call of `encode`, by what the library answers.
use edgevision_rv1126b.Prelude.{
  ℕ, ◌+◌, ◌*◌, ◌/◌, ◌%◌, ◌^◌, ◌≤◌, ◌≡◌, inl, inr, refl, sym, subst, ◌∙◌, Bool, true, false, not,
  List, [], ◌++◌, Option, none, some, arith, if◌then◌else◌, length, drop, replicate, is_empty, All,
  le→leb, Bool-cases,
}
use edgevision_rv1126b.Memory.Planes.{PlanesCopied}
use edgevision_rv1126b.H264Encoder.Lifetime.{held_by}
use edgevision_rv1126b.H264Encoder.{H264Encoder}
use edgevision_rv1126b.H264Encoder.Encode.{
  VideoFrame, Pack, Codec, Encoded, stream_pack_count, give_up, take_stream, send_frame, fill_input,
  encode,
}
use edgevision_rv1126b.H264Encoder.Buffers.{
  IsReady, IsWithin, packet_of, append_packs_within, length-background, fill_input-PlanesCopied,
}

-- The frame that is offered to the encoder of the library.
abbrev pub frame_of : H264Encoder → List ℕ → VideoFrame
frame_of encoder pixels = record {
  pixels = pixels;
  width = encoder.width;
  height = encoder.height;
  vir_width = encoder.vir_width;
  vir_height = encoder.vir_height;
  pixel_format = encoder.input_pixel_format;
  pts = encoder.pts;
}

-- The packets that the library hands out for a frame that it takes.
abbrev pub handed_out : Codec → Option (List Pack)
handed_out codec = if codec.flushes then if codec.sends then codec.stream else none else none

abbrev pub packet_in : Option (List Pack) → List ℕ
packet_in none = []
packet_in (some packs) = packet_of packs

abbrev pub is_some : Option (List Pack) → Bool
is_some none = false
is_some (some _) = true

-- The packets of the stream lie in their blocks, and there are no more than the program has room for.
abbrev pub IsSound : Option (List Pack) → Type 0
IsSound none = Unit
IsSound (some packs) = (length packs ≤ stream_pack_count) × All IsWithin packs

pub record Outcome (encoder : H264Encoder) (codec : Codec) (pixels : List ℕ) (after : Encoded)
    : Type 0 where
  pub packet : after.out_h264 ≡ packet_in (handed_out codec)
  pub answer : after.answer ≡ not (is_empty after.out_h264)
  pub released : after.released ≡ is_some (handed_out codec)
  pub offered : after.offered ≡ (if codec.flushes then some (frame_of encoder pixels) else none)
  pub pts : after.encoder.pts ≡ (if codec.flushes then (encoder.pts + 1) % 2 ^ 64 else encoder.pts)
  pub same_held : held_by after.encoder ≡ held_by encoder

-- `send_frame` keeps all but the counter of the time stamps.
abbrev Sends : H264Encoder → Codec → List ℕ → Type 0
Sends encoder codec pixels =
    (after : Encoded) × (send_frame encoder codec pixels ≡ some after)
    × Outcome encoder codec pixels after
    × (after.encoder ≡ record encoder { pts = after.encoder.pts })

module _ (encoder : H264Encoder) (codec : Codec) (pixels : List ℕ) where
  abbrev counted : H264Encoder
  counted = record encoder { pts = (encoder.pts + 1) % 2 ^ 64 }

  -- A flush, a frame or a stream that the library refuses.
  send_frame_refused :
      (codec.flushes ≡ true → codec.sends ≡ true → codec.stream ≡ none) → Sends encoder codec pixels
  unfolding send_frame take_stream
  send_frame_refused refused = elim (Bool-cases codec.flushes) [
    | inr unflushed ↦ (give_up encoder none, ground arith, ground arith, ground arith)
    | inl flushed ↦ (
      give_up counted (some (frame_of encoder pixels)),
      ground (arith, refused flushed),
      ground (arith, refused flushed),
      ground arith,
    )
  ]

  send_frame_taken :
      (packs : List Pack)
      → codec.flushes ≡ true
      → codec.sends ≡ true
      → codec.stream ≡ some packs
      → IsSound (some packs)
      → Sends encoder codec pixels
  unfolding send_frame take_stream
  send_frame_taken packs flushed sent streamed (few, within) =
      let out = packet_of packs in
      (
        record {
          encoder = counted;
          answer = not (is_empty out);
          out_h264 = out;
          offered = some (frame_of encoder pixels);
          released = true;
        },
        rw (
          flushed,
          sent,
          streamed,
          le→leb (length packs) stream_pack_count few,
          append_packs_within [] packs within,
        ),
        ground arith,
        refl,
      )

  send_frame_lem :
      (stream : Option (List Pack))
      → codec.stream ≡ stream
      → IsSound stream
      → Sends encoder codec pixels
  send_frame_lem none e sound = send_frame_refused (λ f g. e)
  send_frame_lem (some packs) e sound = elim (Bool-cases codec.flushes) [
    | inr unflushed ↦ send_frame_refused (λ f g. cc)
    | inl flushed ↦ elim (Bool-cases codec.sends) [
      | inr unsent ↦ send_frame_refused (λ f g. cc)
      | inl sent ↦ send_frame_taken packs flushed sent e sound
    ]
  ]

  encode_filled :
      (block : ℕ) (memory yuv_data : List ℕ)
      → encoder.input_buffer ≡ some block
      → encoder.input_vir_addr ≡ some memory
      → fill_input encoder memory yuv_data ≡ some pixels
      → encode encoder codec yuv_data
        ≡ send_frame (record encoder { input_vir_addr = some pixels }) codec pixels
  unfolding encode
  encode_filled block memory yuv_data e f g = ground arith

-- The encoder after a frame is ready for the next.
IsReady-filled :
    (encoder after : H264Encoder) (block n : ℕ) (memory pixels : List ℕ)
    → IsReady encoder block memory
    → length pixels ≡ length memory
    → after ≡ record encoder { pts = n; input_vir_addr = some pixels }
    → IsReady after block pixels
IsReady-filled encoder after block n memory pixels ready e same =
    subst (λ x. IsReady x block pixels) (sym same)
      (record {
        has_block = ready.has_block;
        has_memory = refl;
        mapped = omega (arith, ready.mapped, e);
        fits = ready.fits;
      })

-- On a ready encoder and a whole picture, `encode` returns, whatever the library answers. The frame that
-- it offers, once the cache is flushed, shows the picture, each pixel at its place in the aligned buffer,
-- on zeros, with the next time stamp. The packet is what lies in the blocks that the library hands out,
-- empty if a call fails; the answer is true just when it is not empty; the stream is released just when
-- there is one; and the encoder stays ready and holds what it held.
pub encode-Outcome :
    (encoder : H264Encoder) (block : ℕ) (memory : List ℕ) (codec : Codec) (yuv_data : List ℕ)
    → IsReady encoder block memory
    → encoder.width * encoder.height + encoder.height / 2 * encoder.width ≤ length yuv_data
    → IsSound codec.stream
    → (pixels : List ℕ) × (after : Encoded) × (encode encoder codec yuv_data ≡ some after)
      × PlanesCopied encoder.width encoder.height
          (replicate encoder.input_buffer_size 0 ++ drop encoder.input_buffer_size memory)
          encoder.vir_width
          (encoder.vir_width * encoder.vir_height)
          yuv_data
          encoder.width
          (encoder.width * encoder.height)
          pixels
      × Outcome encoder codec pixels after
      × IsReady after.encoder block pixels
encode-Outcome encoder block memory codec yuv_data ready room sound =
    let (pixels, filled, planes) =
      fill_input-PlanesCopied encoder block memory yuv_data ready room in
    let shown = record encoder { input_vir_addr = some pixels } in
    let (after, sends, outcome, same) = send_frame_lem shown codec pixels codec.stream refl sound in
    (
      pixels,
      after,
      encode_filled encoder codec pixels block memory yuv_data ready.has_block ready.has_memory
            filled
          ∙ sends,
      planes,
      record {
        packet = outcome.packet;
        answer = outcome.answer;
        released = outcome.released;
        offered = outcome.offered;
        pts = outcome.pts;
        same_held = outcome.same_held;
      },
      IsReady-filled encoder after.encoder block after.encoder.pts memory pixels ready
          (planes.same_length ∙ length-background encoder.input_buffer_size memory ready.mapped)
          same,
    )

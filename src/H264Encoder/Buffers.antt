-- ===== src/H264Encoder/Buffers.antt =====
-- What stands in the buffers of the encoder: the aligned picture, and the bytes of a packet.
use edgevision_rv1126b.Prelude.{
  ℕ, ◌+◌, ◌*◌, ◌/◌, ◌≤◌, ◌≡◌, ap, ◌∙◌, List, [], ◌∷◌, ◌++◌, none, some, arith, length, take, drop,
  replicate, All, append-nil, append_assoc, length-append, length-replicate, length-drop, le→leb,
}
use edgevision_rv1126b.Memory.Planes.{PlanesCopied, PlanesFit, copy_planes-PlanesCopied}
use edgevision_rv1126b.H264Encoder.{H264Encoder}
use edgevision_rv1126b.H264Encoder.Encode.{Pack, append_pack, append_packs, fill_input}

-- An encoder that `initEncoder` has made ready: its input buffer has room for the aligned picture.
pub record IsReady (encoder : H264Encoder) (block : ℕ) (memory : List ℕ) : Type 0 where
  pub has_block : encoder.input_buffer ≡ some block
  pub has_memory : encoder.input_vir_addr ≡ some memory
  pub mapped : encoder.input_buffer_size ≤ length memory
  pub fits :
      PlanesFit encoder.width encoder.height encoder.vir_width
        (encoder.vir_width * encoder.vir_height)
        encoder.input_buffer_size

-- A packet that lies in its block, and its bytes; a block without an address has none.
abbrev pub IsWithin : Pack → Type 0
IsWithin pack = elim pack.block as (λ _. Type 0) [
  | none ↦ Unit
  | some memory ↦ pack.offset + pack.len ≤ length memory
]

unfoldable pub bytes_of : Pack → List ℕ
bytes_of pack = elim pack.block [
  | none ↦ []
  | some memory ↦ take pack.len (drop pack.offset memory)
]

unfoldable pub packet_of : List Pack → List ℕ
packet_of [] = []
packet_of (pack ∷ packs) = bytes_of pack ++ packet_of packs

append_pack_within :
    (out : List ℕ) (pack : Pack)
    → IsWithin pack
    → append_pack out pack ≡ some (out ++ bytes_of pack)
unfolding append_pack bytes_of
append_pack_within out pack within = ground (arith, append-nil out)

pub append_packs_within :
    (out : List ℕ) (packs : List Pack)
    → All IsWithin packs
    → append_packs out packs ≡ some (out ++ packet_of packs)
unfolding append_packs packet_of
append_packs_within out [] h = rw (append-nil out)
append_packs_within out (pack ∷ packs) (h, hs) = rw (append_pack_within out pack h) (
    append_packs_within (out ++ bytes_of pack) packs hs
    ∙ ap some (append_assoc out (bytes_of pack) (packet_of packs)))

-- The memory after `memset`.
pub length-background :
    (size : ℕ) (memory : List ℕ)
    → size ≤ length memory
    → length (replicate size 0 ++ drop size memory) ≡ length memory
length-background size memory h = omega (
  arith,
  length-append (replicate size 0) (drop size memory),
  length-replicate {A = ℕ} size 0,
  length-drop size memory,
)

-- The picture on a black background, aligned as the encoder wants it.
pub fill_input-PlanesCopied :
    (encoder : H264Encoder) (block : ℕ) (memory yuv_data : List ℕ)
    → IsReady encoder block memory
    → encoder.width * encoder.height + encoder.height / 2 * encoder.width ≤ length yuv_data
    → (pixels : List ℕ) × (fill_input encoder memory yuv_data ≡ some pixels)
      × PlanesCopied encoder.width encoder.height
          (replicate encoder.input_buffer_size 0 ++ drop encoder.input_buffer_size memory)
          encoder.vir_width
          (encoder.vir_width * encoder.vir_height)
          yuv_data
          encoder.width
          (encoder.width * encoder.height)
          pixels
unfolding fill_input
fill_input-PlanesCopied encoder block memory yuv_data ready room =
    let (pixels, copied, planes) =
      copy_planes-PlanesCopied
        (replicate encoder.input_buffer_size 0 ++ drop encoder.input_buffer_size memory)
        encoder.vir_width (encoder.vir_width * encoder.vir_height) yuv_data encoder.width
        (encoder.width * encoder.height) room_there
        (record { wide = omega arith; luma = omega arith; chroma = room }) in
    (pixels, rw (le→leb encoder.input_buffer_size (length memory) ready.mapped) copied, planes)
  where
    room_there :
        PlanesFit encoder.width encoder.height encoder.vir_width
          (encoder.vir_width * encoder.vir_height)
          (length (replicate encoder.input_buffer_size 0 ++ drop encoder.input_buffer_size memory))
    room_there = record {
      wide = ready.fits.wide;
      luma = ready.fits.luma;
      chroma = omega (
        arith,
        length-background encoder.input_buffer_size memory ready.mapped,
        ready.mapped,
        ready.fits.chroma,
      );
    }

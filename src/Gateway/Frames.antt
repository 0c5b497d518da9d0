-- ===== src/Gateway/Frames.antt =====
-- The loop of `TcpServer::handleProducerBytes` that cuts the received bytes into packets.
pub mod Parses
pub mod Reassembly
pub mod Reads
mod Tests
use edgevision_rv1126b.Prelude.{
  ℕ, zero, suc, ◌+◌, Bool, true, false, ◌||◌, List, [], ◌∷◌, ◌++◌, Option, none, some, ltb, ◌==◌,
  if◌then◌else◌, length, take, drop,
}
use edgevision_rv1126b.Wire.{read_be32}
use edgevision_rv1126b.Gateway.State.{max_frame_size}

pub record Split : Type 0 where
  pub ready_frames : List (List ℕ)
  pub recv_buffer : List ℕ
  pub invalid_stream : Bool

-- `frame_size == 0 || frame_size > MAX_FRAME_SIZE`.
abbrev pub is_bad_size : ℕ → Bool
is_bad_size frame_size = (frame_size == 0) || ltb max_frame_size frame_size

-- Each round takes one fuel; `none` says that it ran out.
unfoldable pub split_frames : ℕ → List ℕ → List (List ℕ) → Option Split
split_frames zero buffer ready = none
split_frames (suc fuel) buffer ready =
    let frame_size : ℕ = read_be32 buffer in
    let further : Option Split =
      split_frames fuel (drop (4 + frame_size) buffer)
        (ready ++ take frame_size (drop 4 buffer) ∷ []) in
    if ltb (length buffer) 4
    then some (record { ready_frames = ready; recv_buffer = buffer; invalid_stream = false })
    else if is_bad_size frame_size
    then some (record { ready_frames = ready; recv_buffer = buffer; invalid_stream = true })
    else if ltb (length buffer) (4 + frame_size)
    then some (record { ready_frames = ready; recv_buffer = buffer; invalid_stream = false })
    else further

-- What the handler makes of a producer's buffer: the packets to broadcast and the bytes kept, or
-- `stop`, when the stream is invalid: then the buffer is cleared and no packet is broadcast.
pub data Received : Type 0 where
  go : List (List ℕ) → List ℕ → Received
  stop : Received

abbrev pub verdict : Split → Received
verdict split = if split.invalid_stream then stop else go split.ready_frames split.recv_buffer

-- The buffer shrinks in each round, so its length is fuel enough.
unfoldable pub receive : List ℕ → List ℕ → Option Received
receive buffer bytes =
    let whole = buffer ++ bytes in
    elim (split_frames (length whole + 1) whole []) [
      | none ↦ none
      | some split ↦ some (verdict split)
    ]

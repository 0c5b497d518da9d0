-- ===== src/RingBuffer.antt =====
-- camera/src/RingBuffer.cpp: a fixed pool of frames with a cursor for writing and one for reading. The
-- methods run under the mutex; `none` is undefined behaviour, a slot that is not there or a copy past
-- the end of one. The capacity is a positive `int`, so the cursors never overflow.
pub mod Window
pub mod Refine
pub mod Reading
mod Tests
use edgevision_rv1126b.Prelude.{
  ℕ, ◌+◌, ◌-◌, ◌%◌, Bool, true, false, List, ◌++◌, Option, none, some, ltb, leb, if◌then◌else◌,
  length, get_elem?, get_or, set, drop, replicate, [],
}

pub record RingBuffer : Type 0 where
  pub buffer : List (List ℕ)
  pub capacity : ℕ
  pub frame_size : ℕ
  pub write_idx : ℕ
  pub read_idx : ℕ
  pub count : ℕ

-- The constructor: every slot is a frame of zeros.
unfoldable pub create : ℕ → ℕ → RingBuffer
create capacity frame_size = record {
  buffer = replicate capacity (replicate frame_size 0);
  capacity = capacity;
  frame_size = frame_size;
  write_idx = 0;
  read_idx = 0;
  count = 0;
}

-- `memcpy(slot.data(), data, size)`: the bytes behind the copy stay.
abbrev pub copy_into : List ℕ → List ℕ → List ℕ
copy_into slot bytes = bytes ++ drop (length bytes) slot

-- The cursors after the copy.
unfoldable pub move_cursors : RingBuffer → RingBuffer
move_cursors ring =
    let written = record ring { write_idx = (ring.write_idx + 1) % ring.capacity } in
    if ltb ring.count ring.capacity
    then record written { count = ring.count + 1 }
    else record written { read_idx = (ring.read_idx + 1) % ring.capacity }

unfoldable pub push : RingBuffer → List ℕ → Option RingBuffer
unfolding move_cursors
push ring bytes = elim (get_elem? ring.buffer ring.write_idx) [
  | none ↦ none
  | some slot ↦
      if leb (length bytes) (length slot)
      then some (
          move_cursors
            (record ring { buffer = set ring.buffer ring.write_idx (copy_into slot bytes) }))
      else none
]

pub data Popped : Type 0 where
  -- The condition of `cv.wait` does not hold: the caller sleeps on.
  blocked : Popped
  popped : List ℕ → RingBuffer → Popped

unfoldable pub pop : RingBuffer → Popped
pop ring =
    if ltb 0 ring.count
    then popped (get_or ring.buffer ring.read_idx [])
        (record ring { read_idx = (ring.read_idx + 1) % ring.capacity; count = ring.count - 1 })
    else blocked

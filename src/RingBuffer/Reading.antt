-- ===== src/RingBuffer/Reading.antt =====
-- `pop` takes the oldest frame of the abstract queue.
use edgevision_rv1126b.Prelude.{
  ℕ, zero, suc, ◌+◌, ◌-◌, ◌%◌, ◌<◌, ◌≡◌, sym, ap, ap₂, ◌∙◌, List, [], ◌∷◌, some, arith, ltb, length,
  get_or, All, ltb→lt, if-intro,
}
use edgevision_rv1126b.NewestQueue
use edgevision_rv1126b.NewestQueue.{enqueue_room, enqueue_full}
use edgevision_rv1126b.RingBuffer.{RingBuffer, Popped, blocked, popped, pop}
use edgevision_rv1126b.RingBuffer.Window.{mod-wrap, window}
use edgevision_rv1126b.RingBuffer.Refine.{IsValid, contents}

-- What `pop` does, by the frames that wait.
abbrev pub Pops : RingBuffer → Popped → Type 0
Pops ring blocked = contents ring ≡ []
Pops ring (popped frame after) =
    (NewestQueue.dequeue (contents ring) ≡ some (frame, contents after))
    × (length frame ≡ ring.frame_size)
    × IsValid after

get_or-All :
    (P : List ℕ → Type 0) (xs : List (List ℕ)) (i : ℕ) (d : List ℕ)
    → All P xs
    → i < length xs
    → P (get_or xs i d)
get_or-All P [] i d h lt = absurd (omega arith)
get_or-All P (x ∷ xs) zero d (p, h) lt = p
get_or-All P (x ∷ xs) (suc i) d (p, h) lt = get_or-All P xs i d h (omega arith)

-- The ring behind a frame that is taken.
abbrev popped_ring : RingBuffer → RingBuffer
popped_ring ring = record ring {
  read_idx = (ring.read_idx + 1) % ring.capacity;
  count = ring.count - 1;
}

dequeue-contents :
    (ring : RingBuffer) (n : ℕ)
    → ring.count ≡ suc n
    → IsValid ring
    → NewestQueue.dequeue (contents ring)
      ≡ some (get_or ring.buffer ring.read_idx [], contents (popped_ring ring))
unfolding NewestQueue.dequeue
dequeue-contents ring n e v =
    ap (λ k. NewestQueue.dequeue (window ring.capacity ring.buffer k ring.read_idx)) e
    ∙ ap₂ (λ k i. some (get_or ring.buffer ring.read_idx [], window ring.capacity ring.buffer k i))
        (omega arith) (sym (mod-wrap ring.capacity ring.read_idx v.reads))

popped_ring-IsValid :
    (ring : RingBuffer) → 0 < ring.count → IsValid ring → IsValid (popped_ring ring)
popped_ring-IsValid ring pos v = record {
  room = v.room;
  slots = v.slots;
  sizes = v.sizes;
  reads = ground (arith, mod-wrap ring.capacity ring.read_idx v.reads, v.reads);
  bounded = omega (arith, v.bounded);
  writes =
      v.writes ∙ ground (arith, mod-wrap ring.capacity ring.read_idx v.reads, v.reads, v.bounded);
}

-- `pop` on a valid ring takes the oldest frame that waits, a whole one, and leaves a valid ring with
-- the others; it sleeps on just when none waits.
pub pop-Pops : (ring : RingBuffer) → IsValid ring → Pops ring (pop ring)
unfolding pop
pop-Pops ring v =
    if-intro (Pops ring) (ltb 0 ring.count)
      (λ some_wait.
        let pos : 0 < ring.count = ltb→lt 0 ring.count some_wait in
        (
          dequeue-contents ring (ring.count - 1) (omega arith) v,
          get_or-All (λ slot. length slot ≡ ring.frame_size) ring.buffer ring.read_idx [] v.sizes
              (omega (arith, v.slots, v.reads)),
          popped_ring-IsValid ring pos v,
        ))
      (λ none_waits.
        let none : ring.count ≡ 0 = ground arith in
        ap (λ n. window ring.capacity ring.buffer n ring.read_idx) none)

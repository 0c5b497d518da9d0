-- ===== src/RingBuffer/Refine.antt =====
-- The ring buffer is a queue of the newest frames.
use edgevision_rv1126b.Prelude.{
  ℕ, zero, suc, ◌+◌, ◌%◌, ◌≤◌, ◌<◌, ◌≡◌, refl, sym, ap, ap₂, ◌∙◌, List, [], ◌∷◌, ◌++◌, some, arith,
  ltb, if◌then◌else◌, length, get_elem?, get_or, set, replicate, get_or-set_self, length-set,
  dec_lt, All, length-replicate, drop_all, append-nil, lt→ltb, le→leb, le→ltb,
}
use edgevision_rv1126b.NewestQueue
use edgevision_rv1126b.NewestQueue.{enqueue_room, enqueue_full}
use edgevision_rv1126b.RingBuffer.{RingBuffer, create, copy_into, push}
use edgevision_rv1126b.RingBuffer.Window.{wrap, mod-wrap, window, window_snoc, window-set}

-- The state between two calls.
pub record IsValid (ring : RingBuffer) : Type 0 where
  pub room : 0 < ring.capacity
  pub slots : length ring.buffer ≡ ring.capacity
  pub sizes : All (λ slot. length slot ≡ ring.frame_size) ring.buffer
  pub reads : ring.read_idx < ring.capacity
  pub bounded : ring.count ≤ ring.capacity
  pub writes : ring.write_idx ≡ wrap ring.capacity (ring.read_idx + ring.count)

-- The frames that wait to be read, the oldest first.
abbrev pub contents : RingBuffer → List (List ℕ)
contents ring = window ring.capacity ring.buffer ring.count ring.read_idx

length-window : (cap : ℕ) (slots : List (List ℕ)) (n i : ℕ) → length (window cap slots n i) ≡ n
length-window cap slots zero i = refl
length-window cap slots (suc n) i = ap suc (length-window cap slots n (wrap cap (i + 1)))

All-replicate : (P : List ℕ → Type 0) (n : ℕ) (x : List ℕ) → P x → All P (replicate n x)
All-replicate P zero x p = tt
All-replicate P (suc n) x p = (p, All-replicate P n x p)

All-set :
    (P : List ℕ → Type 0) (xs : List (List ℕ)) (i : ℕ) (x : List ℕ)
    → All P xs
    → P x
    → All P (set xs i x)
All-set P [] i x h p = tt
All-set P (y ∷ xs) zero x (q, h) p = (p, h)
All-set P (y ∷ xs) (suc i) x (q, h) p = (q, All-set P xs i x h p)

slot_at :
    (P : List ℕ → Type 0) (xs : List (List ℕ)) (i : ℕ)
    → All P xs
    → i < length xs
    → (x : List ℕ) × (get_elem? xs i ≡ some x) × P x
slot_at P [] i h lt = absurd (omega arith)
slot_at P (x ∷ xs) zero (p, h) lt = (x, refl, p)
slot_at P (x ∷ xs) (suc i) (p, h) lt = slot_at P xs i h (omega arith)

pub create-IsValid : (capacity frame_size : ℕ) → 0 < capacity → IsValid (create capacity frame_size)
unfolding create
create-IsValid capacity frame_size pos = record {
  room = pos;
  slots = length-replicate capacity (replicate frame_size 0);
  sizes = All-replicate _ capacity (replicate frame_size 0) (length-replicate frame_size 0);
  reads = pos;
  bounded = omega arith;
  writes = ground arith;
}

copy_whole : (slot frame : List ℕ) → length slot ≡ length frame → copy_into slot frame ≡ frame
copy_whole slot frame e = rw (drop_all (length frame) slot (omega (arith, e))) (append-nil frame)

-- The slots after a whole frame is written.
abbrev written : RingBuffer → List ℕ → List (List ℕ)
written ring frame = set ring.buffer ring.write_idx frame

-- The state that `push` leaves, by its two branches.
abbrev pushed_room : RingBuffer → List ℕ → RingBuffer
pushed_room ring frame = record ring {
  buffer = written ring frame;
  write_idx = (ring.write_idx + 1) % ring.capacity;
  count = ring.count + 1;
}

abbrev pushed_full : RingBuffer → List ℕ → RingBuffer
pushed_full ring frame = record ring {
  buffer = written ring frame;
  write_idx = (ring.write_idx + 1) % ring.capacity;
  read_idx = (ring.read_idx + 1) % ring.capacity;
}

abbrev after_push : RingBuffer → List ℕ → RingBuffer
after_push ring frame =
    if ltb ring.count ring.capacity then pushed_room ring frame else pushed_full ring frame

push-after_push :
    (ring : RingBuffer) (frame : List ℕ)
    → IsValid ring
    → length frame ≡ ring.frame_size
    → push ring frame ≡ some (after_push ring frame)
unfolding push
push-after_push ring frame v e =
    let (slot, at, size) =
      slot_at (λ slot. length slot ≡ ring.frame_size) ring.buffer ring.write_idx v.sizes
        (ground (arith, v.slots, v.writes, v.reads, v.bounded, v.room)) in
    rw
      (
        at,
        push,
        copy_whole slot frame (size ∙ sym e),
        le→leb (length frame) (length slot) (omega (arith, size, e)),
      )
      refl

-- The ring after a `push` of a whole frame.
pub record Pushed (ring : RingBuffer) (frame : List ℕ) (after : RingBuffer) : Type 0 where
  pub stored : contents after ≡ NewestQueue.enqueue ring.capacity (contents ring) frame
  pub same_capacity : after.capacity ≡ ring.capacity
  pub same_size : after.frame_size ≡ ring.frame_size
  pub valid : IsValid after

-- Writing at the position behind the `n` slots from `i` on makes them `n + 1`.
window-written :
    (cap : ℕ) (slots : List (List ℕ)) (frame : List ℕ) (n i : ℕ)
    → i < cap
    → n < cap
    → length slots ≡ cap
    → window cap (set slots (wrap cap (i + n)) frame) (suc n) i ≡ window cap slots n i ++ frame ∷ []
window-written cap slots frame n i h lt e =
    window_snoc cap (set slots (wrap cap (i + n)) frame) n i h lt
    ∙ ap₂ (λ l x. l ++ x ∷ []) (window-set cap slots frame n i h lt)
        (get_or-set_self slots (wrap cap (i + n)) frame [] (ground (arith, e)))

add_one : (n : ℕ) → n + 1 ≡ suc n
add_one n = omega arith

room_stored :
    (ring : RingBuffer) (frame : List ℕ)
    → IsValid ring
    → ring.count < ring.capacity
    → contents (pushed_room ring frame) ≡ NewestQueue.enqueue ring.capacity (contents ring) frame
room_stored ring frame v lt =
    ap₂ (λ n w. window ring.capacity (set ring.buffer w frame) n ring.read_idx) (add_one ring.count)
      v.writes
    ∙ window-written ring.capacity ring.buffer frame ring.count ring.read_idx v.reads lt v.slots
    ∙ sym (
        enqueue_room ring.capacity (contents ring) frame
          (omega (arith, length-window ring.capacity ring.buffer ring.count ring.read_idx)))

-- A full ring of `suc m` slots: the write takes the oldest slot's place.
full_stored :
    (cap m : ℕ) (slots : List (List ℕ)) (frame : List ℕ) (r w : ℕ)
    → cap ≡ suc m
    → r < cap
    → w ≡ wrap cap (r + suc m)
    → length slots ≡ cap
    → window cap (set slots w frame) (suc m) (wrap cap (r + 1))
      ≡ NewestQueue.enqueue cap (window cap slots (suc m) r) frame
full_stored cap m slots frame r w ec lt ew es =
    ap (λ k. window cap (set slots k frame) (suc m) (wrap cap (r + 1))) same
    ∙ window-written cap slots frame m (wrap cap (r + 1)) (ground arith) (omega arith) es
    ∙ sym (
        enqueue_full cap (get_or slots r []) (window cap slots m (wrap cap (r + 1))) frame
          (omega (arith, length-window cap slots m (wrap cap (r + 1)))))
  where
    same : w ≡ wrap cap (wrap cap (r + 1) + m)
    same = ground arith

pushed_room-Pushed :
    (ring : RingBuffer) (frame : List ℕ)
    → IsValid ring
    → length frame ≡ ring.frame_size
    → ring.count < ring.capacity
    → Pushed ring frame (pushed_room ring frame)
pushed_room-Pushed ring frame v e lt = record {
  stored = room_stored ring frame v lt;
  same_capacity = refl;
  same_size = refl;
  valid = record {
    room = v.room;
    slots = length-set ring.buffer ring.write_idx frame ∙ v.slots;
    sizes = All-set _ ring.buffer ring.write_idx frame v.sizes e;
    reads = v.reads;
    bounded = omega arith;
    writes =
        mod-wrap ring.capacity ring.write_idx (ground (arith, v.writes, v.reads, v.bounded))
        ∙ ground (arith, v.writes, v.reads, v.bounded);
  };
}

pushed_full-Pushed :
    (ring : RingBuffer) (frame : List ℕ) (m : ℕ)
    → ring.count ≡ suc m
    → IsValid ring
    → length frame ≡ ring.frame_size
    → ring.count ≡ ring.capacity
    → Pushed ring frame (pushed_full ring frame)
pushed_full-Pushed ring frame m em v e full = record {
  stored =
      ap₂ (λ n i. window ring.capacity (written ring frame) n i) em
        (mod-wrap ring.capacity ring.read_idx v.reads)
      ∙ full_stored ring.capacity m ring.buffer frame ring.read_idx ring.write_idx (omega arith)
          v.reads (v.writes ∙ ap (λ n. wrap ring.capacity (ring.read_idx + n)) em) v.slots
      ∙ ap
          (λ n.
            NewestQueue.enqueue ring.capacity (window ring.capacity ring.buffer n ring.read_idx)
              frame)
          (sym em);
  same_capacity = refl;
  same_size = refl;
  valid = record {
    room = v.room;
    slots = length-set ring.buffer ring.write_idx frame ∙ v.slots;
    sizes = All-set _ ring.buffer ring.write_idx frame v.sizes e;
    reads = ground (arith, mod-wrap ring.capacity ring.read_idx v.reads, v.reads);
    bounded = v.bounded;
    writes =
        mod-wrap ring.capacity ring.write_idx (ground (arith, v.writes, v.reads, v.bounded))
        ∙ ground
            (arith, v.writes, v.reads, v.bounded, mod-wrap ring.capacity ring.read_idx v.reads);
  };
}

after_push-Pushed :
    (ring : RingBuffer) (frame : List ℕ) (count : ℕ)
    → ring.count ≡ count
    → IsValid ring
    → length frame ≡ ring.frame_size
    → Pushed ring frame (after_push ring frame)
after_push-Pushed ring frame zero em v e =
    rw (lt→ltb ring.count ring.capacity (omega (arith, v.room)))
      (pushed_room-Pushed ring frame v e (omega (arith, v.room)))
after_push-Pushed ring frame (suc m) em v e = elim (dec_lt ring.count ring.capacity) [
  | yes lt ↦ rw (lt→ltb ring.count ring.capacity lt) (pushed_room-Pushed ring frame v e lt)
  | no ge ↦
      rw (le→ltb ring.count ring.capacity (omega arith))
        (pushed_full-Pushed ring frame m em v e (omega (arith, v.bounded)))
]

-- `push` of a frame of the ring's size on a valid ring stays within the pool and within the slot; the
-- ring holds the newest `capacity` of the frames that waited and the new one, in order, and is valid.
pub push-Pushed :
    (ring : RingBuffer) (frame : List ℕ)
    → IsValid ring
    → length frame ≡ ring.frame_size
    → (after : RingBuffer) × (push ring frame ≡ some after) × Pushed ring frame after
push-Pushed ring frame v e = (
  after_push ring frame,
  push-after_push ring frame v e,
  after_push-Pushed ring frame ring.count refl v e,
)

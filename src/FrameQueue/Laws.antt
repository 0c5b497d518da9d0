-- ===== src/FrameQueue/Laws.antt =====
-- FrameQueue.h call by call: the bound on the queue, and the queue that its calls implement.
use edgevision_rv1126b.Prelude.{
  ℕ, ◌+◌, ◌%◌, ◌^◌, ◌≤◌, ◌<◌, ◌≡◌, refl, Bool, true, false, List, [], ◌∷◌, ◌++◌, none, some, arith,
  leb, length, length-append, if◌then◌else◌, sym, ap, dec_lt,
}
use edgevision_rv1126b.Frame.{CapturedFrame}
use edgevision_rv1126b.NewestQueue
use edgevision_rv1126b.FrameQueue.{FrameQueue, create, push, wait_and_pop, blocked, closed, popped}

pub record IsValid (q : FrameQueue) : Type 0 where
  pub room : 0 < q.capacity
  pub bounded : length q.queue ≤ q.capacity
  pub counted : q.dropped_frames < 2 ^ 64

-- What `push` leaves, by the state of the queue.
pub push_room :
    (q : FrameQueue) (frame : CapturedFrame)
    → length q.queue < q.capacity
    → push q frame ≡ some (record q { queue = q.queue ++ frame ∷ [] }, false)
unfolding push
push_room q frame h = ground arith

pub push_full :
    (q : FrameQueue) (x : CapturedFrame) (rest : List CapturedFrame) (frame : CapturedFrame)
    → q.queue ≡ x ∷ rest
    → q.capacity ≤ length q.queue
    → push q frame
      ≡ some (
        record q { queue = rest ++ frame ∷ []; dropped_frames = (q.dropped_frames + 1) % 2 ^ 64 },
        true,
      )
unfolding push
push_full q x rest frame e h = ground arith

pub create-IsValid : (capacity : ℕ) → 0 < capacity → IsValid (create capacity)
unfolding create
create-IsValid capacity h = ground arith

abbrev is_full : FrameQueue → Bool
is_full q = leb q.capacity (length q.queue)

-- The queue after a `push` on a valid one.
pub record Pushed (q : FrameQueue) (frame : CapturedFrame) (after : FrameQueue) (dropped : Bool)
    : Type 0 where
  pub returns : push q frame ≡ some (after, dropped)
  pub contents : after.queue ≡ NewestQueue.enqueue q.capacity q.queue frame
  pub flag : dropped ≡ is_full q
  pub count :
      after.dropped_frames
      ≡ (if is_full q then (q.dropped_frames + 1) % 2 ^ 64 else q.dropped_frames)
  pub same_capacity : after.capacity ≡ q.capacity
  pub same_stopped : after.stopped ≡ q.stopped
  pub valid : IsValid after

Pushed-room :
    (q : FrameQueue) (frame : CapturedFrame)
    → IsValid q
    → length q.queue < q.capacity
    → Pushed q frame (record q { queue = q.queue ++ frame ∷ [] }) false
Pushed-room q frame v h = record {
  returns = push_room q frame h;
  contents = sym (NewestQueue.enqueue_room q.capacity q.queue frame h);
  flag = ground arith;
  count = ground arith;
  same_capacity = refl;
  same_stopped = refl;
  valid = omega (arith, v, length-append q.queue (frame ∷ []));
}

Pushed-full :
    (q : FrameQueue) (x : CapturedFrame) (rest : List CapturedFrame) (frame : CapturedFrame)
    → IsValid q
    → q.queue ≡ x ∷ rest
    → q.capacity ≤ length q.queue
    → Pushed q frame
        (record q { queue = rest ++ frame ∷ []; dropped_frames = (q.dropped_frames + 1) % 2 ^ 64 })
        true
Pushed-full q x rest frame v e h = record {
  returns = push_full q x rest frame e h;
  contents = rw e (sym (NewestQueue.enqueue_full q.capacity x rest frame (ground arith)));
  flag = ground arith;
  count = ground arith;
  same_capacity = refl;
  same_stopped = refl;
  valid = omega (arith, v, ap length e, length-append rest (frame ∷ []));
}

Pushed-full_at :
    (q : FrameQueue) (frame : CapturedFrame) (xs : List CapturedFrame)
    → q.queue ≡ xs
    → IsValid q
    → q.capacity ≤ length q.queue
    → (after : FrameQueue) × (dropped : Bool) × Pushed q frame after dropped
Pushed-full_at q frame [] e v h = absurd (omega (arith, v, ap length e))
Pushed-full_at q frame (x ∷ rest) e v h = (_, true, Pushed-full q x rest frame v e h)

-- `push` on a valid queue pops no empty deque: it returns a valid queue with the same capacity and
-- stop flag that holds the newest `capacity` of the old frames and the new one, its flag tells
-- whether the queue was full, and the counter of drops goes up by one, modulo 2^64, just then.
pub push_refines :
    (q : FrameQueue) (frame : CapturedFrame)
    → IsValid q
    → (after : FrameQueue) × (dropped : Bool) × Pushed q frame after dropped
push_refines q frame v = elim (dec_lt (length q.queue) q.capacity) [
  | yes h ↦ (_, false, Pushed-room q frame v h)
  | no h ↦ Pushed-full_at q frame q.queue refl v (omega arith)
]

-- `waitAndPop` by the state of the queue: it hands out the oldest frame while there is one, stopped
-- or not; on an empty queue it sleeps on until the queue is stopped, and then returns false.
pub wait_and_pop_refines :
    (q : FrameQueue)
    → wait_and_pop q ≡ elim (NewestQueue.dequeue q.queue) [
      | some (frame, rest) ↦ popped frame (record q { queue = rest })
      | none ↦ if q.stopped then closed else blocked
    ]
unfolding wait_and_pop NewestQueue.dequeue
wait_and_pop_refines q = ground arith

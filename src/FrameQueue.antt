-- ===== src/FrameQueue.antt =====
-- capture/include/FrameQueue.h. A method returns the queue that it leaves beside its result; each
-- runs under the mutex, so a run of the threads is a sequence of calls. Waiting is the outcome
-- `blocked`: the condition of `cv_.wait` does not hold and the caller sleeps on.
pub mod Laws
pub mod Runs
mod Tests
use edgevision_rv1126b.Prelude.{
  is_empty, ℕ, ◌+◌, ◌%◌, ◌^◌, ◌≡◌, Bool, true, false, List, [], ◌∷◌, ◌++◌, Option, none, some, not,
  ◌||◌, ltb, leb, if◌then◌else◌, length,
}
use edgevision_rv1126b.Frame.{CapturedFrame}

pub record FrameQueue : Type 0 where
  pub capacity : ℕ
  pub stopped : Bool
  pub dropped_frames : ℕ
  pub queue : List CapturedFrame

-- The constructor.
unfoldable pub create : ℕ → FrameQueue
create capacity = record { capacity = capacity; stopped = false; dropped_frames = 0; queue = [] }

-- `deque::pop_front`, with `none` for the undefined behaviour on an empty deque.
abbrev pub pop_front {ℓ} : {A : Type ℓ} → List A → Option (List A)
pop_front [] = none
pop_front (_ ∷ xs) = some xs

push_back : FrameQueue → CapturedFrame → FrameQueue
push_back q frame = record q { queue = q.queue ++ frame ∷ [] }

-- The flag says that a frame was dropped to make room.
unfoldable pub push : FrameQueue → CapturedFrame → Option (FrameQueue × Bool)
unfolding push_back
push q frame =
    if leb q.capacity (length q.queue)
    then elim (pop_front q.queue) [
      | none ↦ none
      | some rest ↦ some (
        push_back (record q { queue = rest; dropped_frames = (q.dropped_frames + 1) % 2 ^ 64 })
            frame,
        true,
      )
    ]
    else some (push_back q frame, false)

pub data Waited : Type 0 where
  blocked : Waited
  -- `waitAndPop` returns false.
  closed : Waited
  -- It returns true, the frame and the queue that is left.
  popped : CapturedFrame → FrameQueue → Waited

-- The predicate of `cv_.wait`.
unfoldable pub ready : FrameQueue → Bool
ready q = q.stopped || not (is_empty q.queue)

take_front : List CapturedFrame → FrameQueue → Waited
take_front [] q = closed
take_front (frame ∷ rest) q = popped frame (record q { queue = rest })

unfoldable pub wait_and_pop : FrameQueue → Waited
unfolding ready take_front
wait_and_pop q = if ready q then take_front q.queue q else blocked

unfoldable pub stop : FrameQueue → FrameQueue
stop q = record q { stopped = true }

unfoldable pub dropped_count : FrameQueue → ℕ
dropped_count q = q.dropped_frames

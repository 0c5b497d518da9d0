-- ===== src/RingBuffer/Tests.antt =====
-- A ring of two frames of two bytes.
use edgevision_rv1126b.Prelude.{◌≡◌, refl, [], ◌∷◌, some, arith}
use edgevision_rv1126b.RingBuffer.{RingBuffer, create, push, pop}
use edgevision_rv1126b.RingBuffer.Refine.{IsValid, create-IsValid, Pushed, push-Pushed}
use edgevision_rv1126b.RingBuffer.Reading.{Pops, pop-Pops}

push-Pushed_example :
    (after : RingBuffer) × (push (create 2 2) (7 ∷ 8 ∷ []) ≡ some after)
    × Pushed (create 2 2) (7 ∷ 8 ∷ []) after
unfolding create
push-Pushed_example = push-Pushed (create 2 2) (7 ∷ 8 ∷ []) (create-IsValid 2 2 (omega arith)) refl

-- One frame waits, at the end of the pool.
abbrev one_waits : RingBuffer
one_waits = record {
  buffer = (1 ∷ 2 ∷ []) ∷ (3 ∷ 4 ∷ []) ∷ [];
  capacity = 2;
  frame_size = 2;
  write_idx = 0;
  read_idx = 1;
  count = 1;
}

one_waits-IsValid : IsValid one_waits
one_waits-IsValid = record {
  room = omega arith;
  slots = refl;
  sizes = (refl, (refl, tt));
  reads = omega arith;
  bounded = omega arith;
  writes = refl;
}

pop-Pops_example : Pops one_waits (pop one_waits)
pop-Pops_example = pop-Pops one_waits one_waits-IsValid

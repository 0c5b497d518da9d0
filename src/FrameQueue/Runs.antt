-- ===== src/FrameQueue/Runs.antt =====
-- Sequences of calls of FrameQueue.h, in the order in which the threads take its mutex.
use mathlib.Core.List.{map-append}
use edgevision_rv1126b.NewestQueue
use edgevision_rv1126b.Prelude.{
  ◌≤◌, ◌≡⟨◌⟩◌, ◌∎, leb, ℕ, ◌+◌, ◌%◌, ◌^◌, ◌<◌, ◌≡◌, refl, sym, ap, ◌∙◌, Bool, true, false, List, [],
  ◌∷◌, ◌++◌, map, Option, none, some, arith, if◌then◌else◌, length, append-nil, append_assoc,
}
use edgevision_rv1126b.Frame.{CapturedFrame}
use edgevision_rv1126b.FrameQueue.{FrameQueue, push, wait_and_pop, stop, blocked, closed, popped}
use edgevision_rv1126b.FrameQueue.Laws.{IsValid, Pushed, push_refines}

pub data Call : Type 0 where
  pushes : CapturedFrame → Call
  pops : Call
  stops : Call

-- How a frame left the queue.
pub data Removal : Type 0 where
  delivered : CapturedFrame → Removal
  dropped : CapturedFrame → Removal

abbrev pub frame_of : Removal → CapturedFrame
frame_of (delivered frame) = frame
frame_of (dropped frame) = frame

abbrev pub drops : List Removal → ℕ
drops [] = 0
drops (delivered _ ∷ log) = drops log
drops (dropped _ ∷ log) = 1 + drops log

abbrev pub pushed : List Call → List CapturedFrame
pushed [] = []
pushed (pushes frame ∷ calls) = frame ∷ pushed calls
pushed (pops ∷ calls) = pushed calls
pushed (stops ∷ calls) = pushed calls

-- The front frame, if the flag that `push` returned is set.
evicted : Bool → List CapturedFrame → List Removal
evicted true [] = []
evicted true (frame ∷ _) = dropped frame ∷ []
evicted false _ = []

-- A caller that is blocked changes nothing, and tries again as a later call.
unfoldable pub step : FrameQueue → Call → Option (FrameQueue × List Removal)
unfolding evicted
step q (pushes frame) = elim (push q frame) [
  | none ↦ none
  | some (after, flag) ↦ some (after, evicted flag q.queue)
]
step q pops = elim (wait_and_pop q) [
  | blocked ↦ some (q, [])
  | closed ↦ some (q, [])
  | popped frame after ↦ some (after, delivered frame ∷ [])
]
step q stops = some (stop q, [])

unfoldable pub run : FrameQueue → List Call → Option (FrameQueue × List Removal)
unfolding step
run q [] = some (q, [])
run q (call ∷ calls) = elim (step q call) [
  | none ↦ none
  | some (after, log) ↦ elim (run after calls) [
    | none ↦ none
    | some (last, logs) ↦ some (last, log ++ logs)
  ]
]

-- From the queue `q` and the frames `more` pushed since, `log` tells what left and `last` what stays.
pub record Conserves (q : FrameQueue) (more : List CapturedFrame) (last : FrameQueue)
    (log : List Removal) : Type 0 where
  pub valid : IsValid last
  pub in_order : map frame_of log ++ last.queue ≡ q.queue ++ more
  pub count : last.dropped_frames ≡ (q.dropped_frames + drops log) % 2 ^ 64
  pub same_capacity : last.capacity ≡ q.capacity

map-evicted-append-enqueue :
    (cap : ℕ) (xs : List CapturedFrame) (frame : CapturedFrame) (flag : Bool)
    → 0 < cap
    → length xs ≤ cap
    → flag ≡ leb cap (length xs)
    → map frame_of (evicted flag xs) ++ NewestQueue.enqueue cap xs frame ≡ xs ++ frame ∷ []
unfolding evicted
map-evicted-append-enqueue cap [] frame true h b e = absurd (ground arith)
map-evicted-append-enqueue cap (x ∷ xs) frame true h b e =
    ap (λ r. x ∷ r) (NewestQueue.enqueue_full cap x xs frame (ground arith))
map-evicted-append-enqueue cap xs frame false h b e =
    NewestQueue.enqueue_room cap xs frame (ground arith)

drops-evicted :
    (xs : List CapturedFrame) (flag : Bool) {cap : ℕ}
    → 0 < cap
    → flag ≡ leb cap (length xs)
    → drops (evicted flag xs) ≡ (if flag then 1 else 0)
unfolding evicted
drops-evicted [] true h e = absurd (ground arith)
drops-evicted (x ∷ xs) true h e = refl
drops-evicted xs false h e = refl

evicted-Conserves :
    (q : FrameQueue) (frame : CapturedFrame) (after : FrameQueue) (flag : Bool)
    → IsValid q
    → Pushed q frame after flag
    → Conserves q (frame ∷ []) after (evicted flag q.queue)
evicted-Conserves q frame after flag v p = record {
  valid = p.valid;
  in_order =
      rw p.contents
        (map-evicted-append-enqueue q.capacity q.queue frame flag v.room v.bounded p.flag);
  count = ground (arith, drops-evicted q.queue flag v.room p.flag);
  same_capacity = p.same_capacity;
}

pops-Conserves :
    (q : FrameQueue) (xs : List CapturedFrame)
    → q.queue ≡ xs
    → IsValid q
    → (after : FrameQueue) × (log : List Removal) × (step q pops ≡ some (after, log))
      × Conserves q [] after log
unfolding step wait_and_pop
pops-Conserves q [] e v = (
  q,
  [],
  ground arith,
  record {
    valid = v;
    in_order = sym (append-nil _);
    count = omega (arith, v);
    same_capacity = refl;
  },
)
pops-Conserves q (x ∷ xs) e v = (
  record q { queue = xs },
  delivered x ∷ [],
  ground arith,
  record {
    valid = ground arith;
    in_order = rw e (sym (append-nil (x ∷ xs)));
    count = omega (arith, v);
    same_capacity = refl;
  },
)

step-Conserves :
    (q : FrameQueue) (call : Call)
    → IsValid q
    → (after : FrameQueue) × (log : List Removal) × (step q call ≡ some (after, log))
      × Conserves q (pushed (call ∷ [])) after log
step-Conserves q (pushes frame) v =
    let (after, flag, p) = push_refines q frame v in
    (
      after,
      evicted flag q.queue,
      unfold step in rw (p.returns, step),
      evicted-Conserves q frame after flag v p,
    )
step-Conserves q pops v = pops-Conserves q q.queue refl v
step-Conserves q stops v = (
  stop q,
  [],
  unfold step in refl,
  unfold stop in
      record {
        valid = omega (arith, v);
        in_order = sym (append-nil _);
        count = omega (arith, v);
        same_capacity = refl;
      },
)

pushed-cons :
    (call : Call) (calls : List Call) → pushed (call ∷ calls) ≡ pushed (call ∷ []) ++ pushed calls
pushed-cons (pushes frame) calls = refl
pushed-cons pops calls = refl
pushed-cons stops calls = refl

drops-append : (xs ys : List Removal) → drops (xs ++ ys) ≡ drops xs + drops ys
drops-append [] ys = omega arith
drops-append (delivered frame ∷ xs) ys = drops-append xs ys
drops-append (dropped frame ∷ xs) ys = omega (arith, drops-append xs ys)

Conserves-trans :
    {q r s : FrameQueue} (xs ys : List CapturedFrame) (log logs : List Removal)
    → Conserves q xs r log
    → Conserves r ys s logs
    → Conserves q (xs ++ ys) s (log ++ logs)
Conserves-trans {q} {r} {s} xs ys log logs c d = record {
  valid = d.valid;
  in_order =
      map frame_of (log ++ logs) ++ s.queue
      ≡⟨ (simp (map-append, append_assoc, d.in_order)) ⟩ map frame_of log ++ r.queue ++ ys
      ≡⟨ ap (λ l. l ++ ys) c.in_order ⟩ q.queue ++ xs ++ ys
      ≡⟨ append_assoc q.queue xs ys ⟩ q.queue ++ (xs ++ ys) ∎;
  count = omega (arith, c.count, d.count, drops-append log logs);
  same_capacity = d.same_capacity ∙ c.same_capacity;
}

-- Every run of calls from a valid queue goes through, whatever the order of pushes, pops and stops:
-- the frames that left, delivered or dropped, followed by those that are still queued are the
-- frames that were queued at first followed by those pushed, in that order; the counter has grown
-- by the number dropped, modulo 2^64; the queue stays valid and keeps its capacity.
pub run-Conserves :
    (q : FrameQueue) (calls : List Call)
    → IsValid q
    → (last : FrameQueue) × (log : List Removal) × (run q calls ≡ some (last, log))
      × Conserves q (pushed calls) last log
unfolding run
run-Conserves q [] v = (
  q,
  [],
  refl,
  record {
    valid = v;
    in_order = sym (append-nil _);
    count = omega (arith, v);
    same_capacity = refl;
  },
)
run-Conserves q (call ∷ calls) v =
    let (after, log, e, c) = step-Conserves q call v in
    let (last, logs, e', c') = run-Conserves after calls c.valid in
    (
      last,
      log ++ logs,
      rw (e, run, e'),
      rw pushed-cons (Conserves-trans (pushed (call ∷ [])) (pushed calls) log logs c c'),
    )

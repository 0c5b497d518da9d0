-- ===== src/Gateway/Sender/Progress.antt =====
-- What one turn of the sending thread does for a viewer.
use edgevision_rv1126b.Prelude.{
  ℕ, ◌+◌, ◌≤◌, ◌<◌, ◌≡◌, sym, ap, ◌∙◌, Bool, true, false, List, [], ◌∷◌, ◌++◌, arith, if◌then◌else◌,
  length, take, drop, drop-add, length-drop, ◌⊎◌, take-append-drop, drop-append_of_le, dec_lt,
  ==_iff, lt→==_false, drop-append_left, take-append_of_le,
}
use edgevision_rv1126b.Socket.{Socket, Link, is_retry}
use edgevision_rv1126b.Gateway.State.{Viewer}
use edgevision_rv1126b.Gateway.Viewers.Queues.{IsValid, Filled, Placed-start}
use edgevision_rv1126b.Gateway.Frames.Reassembly.{concat}
use edgevision_rv1126b.Gateway.Sender.{advance}

-- The bytes that the viewer is still to get.
abbrev pub pending_of : ℕ → List (List ℕ) → List ℕ
pending_of offset chunks = drop offset (concat chunks)

abbrev pub pending : Viewer → List ℕ
pending v = pending_of v.current_offset v.send_queue

-- The last call of `send` asked for a later retry.
pub record Refused (socket : Socket) (link : Link) : Type 0 where
  pub call : ℕ
  pub size : ℕ
  pub last : call + 1 ≡ link.calls
  pub retry : is_retry (socket.send call size) ≡ true

-- A turn that leads from `v` and `link` to the viewer and link given.
pub record Turn (socket : Socket) (v : Viewer) (link : Link) (w : Viewer) (after : Link)
    (dead : Bool) : Type 0 where
  pub valid : IsValid w
  pub kept : after.wire ++ pending w ≡ link.wire ++ pending v
  pub flagged : w.active ≡ (if dead then false else v.active)
  pub same_fd : w.fd ≡ v.fd
  pub ended : (w.send_queue ≡ []) ⊎ ((w.active ≡ false) ⊎ Refused socket after)

-- `advance` by its test.
advance_full :
    (v : Viewer) (chunk : List ℕ) (rest : List (List ℕ)) (n : ℕ)
    → v.current_offset + n ≡ length chunk
    → advance v chunk rest n ≡ record v { send_queue = rest; current_offset = 0 }
unfolding advance
advance_full v chunk rest n e = rw ((==_iff _ _).1 e)

advance_more :
    (v : Viewer) (chunk : List ℕ) (rest : List (List ℕ)) (n : ℕ)
    → v.current_offset + n < length chunk
    → advance v chunk rest n ≡ record v { current_offset = v.current_offset + n }
unfolding advance
advance_more v chunk rest n lt = rw (lt→==_false _ _ lt)

-- Taking `n` bytes of the first chunk off what is pending.
pending_of-take :
    (o n : ℕ) (chunk more : List ℕ)
    → o + n ≤ length chunk
    → take n (drop o chunk) ++ drop (o + n) (chunk ++ more) ≡ drop o (chunk ++ more)
pending_of-take o n chunk more le =
    rw (drop-add o n (chunk ++ more), drop-append_of_le o chunk more (omega arith))
      (rw (← take-append_of_le n (drop o chunk) more (omega (arith, length-drop o chunk)))
        (take-append-drop n (drop o chunk ++ more)))

pub advance-pending :
    (v : Viewer) (chunk : List ℕ) (rest : List (List ℕ)) (n : ℕ)
    → v.send_queue ≡ chunk ∷ rest
    → v.current_offset + n ≤ length chunk
    → take n (drop v.current_offset chunk) ++ pending (advance v chunk rest n) ≡ pending v
advance-pending v chunk rest n e le = elim (dec_lt (v.current_offset + n) (length chunk)) [
  | yes lt ↦
      rw (advance_more v chunk rest n lt, e)
        (pending_of-take v.current_offset n chunk (concat rest) le)
  | no ge ↦
      let full : v.current_offset + n ≡ length chunk = omega arith in
      rw (advance_full v chunk rest n full, e)
        (ap (λ l. take n (drop v.current_offset chunk) ++ l)
            (sym (drop-append_left chunk (concat rest))
              ∙ ap (λ k. drop k (chunk ++ concat rest)) (sym full))
          ∙ pending_of-take v.current_offset n chunk (concat rest) le)
]

pub advance-IsValid :
    (v : Viewer) (chunk : List ℕ) (rest : List (List ℕ)) (n : ℕ)
    → v.send_queue ≡ chunk ∷ rest
    → v.current_offset + n ≤ length chunk
    → IsValid v
    → IsValid (advance v chunk rest n)
advance-IsValid v chunk rest n e le h = elim (dec_lt (v.current_offset + n) (length chunk)) [
  | yes lt ↦
      rw (advance_more v chunk rest n lt)
        (record { placed = rw e lt; filled = h.filled; bounded = h.bounded })
  | no ge ↦
      let filled : Filled (chunk ∷ rest) = rw e at h.filled in
      rw (advance_full v chunk rest n (omega arith)) (record {
        placed = Placed-start rest filled.1;
        filled = filled.1;
        bounded = omega (arith, h.bounded, ap length e);
      })
]

pub advance-same :
    (v : Viewer) (chunk : List ℕ) (rest : List (List ℕ)) (n : ℕ)
    → ((advance v chunk rest n).active ≡ v.active) × ((advance v chunk rest n).fd ≡ v.fd)
unfolding advance
advance-same v chunk rest n = (ground arith, ground arith)

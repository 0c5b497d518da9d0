-- ===== src/Gateway/Sender/Turns.antt =====
-- A whole turn, by the answers of the calls of `send`.
use edgevision_rv1126b.Prelude.{
  ℕ, zero, suc, ◌+◌, ◌-◌, ◌≤◌, ◌<◌, ◌≡◌, refl, ap, ◌∙◌, Bool, true, false, List, [], ◌∷◌, ◌++◌,
  Option, none, some, arith, length, take, drop, append_assoc, length-append, length-drop,
  length-take, ◌⊎◌, inl, inr,
}
use edgevision_rv1126b.Socket.{
  Socket, Link, SendResult, sent, interrupted, would_block, failed, is_retry, called, more_sent,
}
use edgevision_rv1126b.Gateway.State.{Viewer}
use edgevision_rv1126b.Gateway.Viewers.Queues.{IsValid}
use edgevision_rv1126b.Gateway.Sender.{advance, send_queued}
use edgevision_rv1126b.Gateway.Sender.Progress.{
  Refused, Turn, advance-IsValid, advance-pending, advance-same, pending,
}

module _ (socket : Socket) where
  abbrev Outcome : Viewer → Link → Option (Viewer × Link × Bool) → Type 0
  Outcome v link none = ⊥
  Outcome v link (some (w, after, dead)) = Turn socket v link w after dead

  -- One call of `send`, by its answer.
  module _ (fuel : ℕ) (v : Viewer) (link : Link) (chunk : List ℕ) (rest : List (List ℕ))
      (e : v.send_queue ≡ chunk ∷ rest) (on : v.active ≡ true) where
    abbrev answer : SendResult
    answer = socket.send link.calls (length chunk - v.current_offset)

    round_sent :
        (n : ℕ)
        → answer ≡ sent n
        → send_queued socket (suc fuel) v link
          ≡ send_queued socket fuel
              (advance v chunk rest n)
              (more_sent link (take n (drop v.current_offset chunk)))
    unfolding send_queued
    round_sent n s = ground arith

    round_interrupted :
        answer ≡ interrupted → send_queued socket (suc fuel) v link ≡ some (v, called link, false)
    unfolding send_queued
    round_interrupted s = ground arith

    round_would_block :
        answer ≡ would_block → send_queued socket (suc fuel) v link ≡ some (v, called link, false)
    unfolding send_queued
    round_would_block s = ground arith

    round_failed :
        answer ≡ failed
        → send_queued socket (suc fuel) v link
          ≡ some (record v { active = false }, called link, true)
    unfolding send_queued
    round_failed s = ground arith

  -- The turn ends at this call.
  stopped-Turn :
      (v : Viewer) (link : Link) (size : ℕ) (a : SendResult)
      → socket.send link.calls size ≡ a
      → is_retry a ≡ true
      → IsValid v
      → Turn socket v link v (called link) false
  stopped-Turn v link size a s r h = record {
    valid = h;
    kept = refl;
    flagged = refl;
    same_fd = refl;
    ended =
        inr
          (inr (record { call = link.calls; size = size; last = refl; retry = ap is_retry s ∙ r }));
  }

  broken-Turn :
      (v : Viewer) (link : Link)
      → IsValid v
      → Turn socket v link (record v { active = false }) (called link) true
  broken-Turn v link h = record {
    valid = record { placed = h.placed; filled = h.filled; bounded = h.bounded };
    kept = refl;
    flagged = refl;
    same_fd = refl;
    ended = inr (inl refl);
  }

  -- The turn goes on after `n` bytes.
  sent-Turn :
      (v : Viewer) (link : Link) (chunk : List ℕ) (rest : List (List ℕ)) (n : ℕ) (w : Viewer)
      (after : Link) (dead : Bool)
      → v.send_queue ≡ chunk ∷ rest
      → v.current_offset + n ≤ length chunk
      → Turn socket
          (advance v chunk rest n)
          (more_sent link (take n (drop v.current_offset chunk)))
          w
          after
          dead
      → Turn socket v link w after dead
  sent-Turn v link chunk rest n w after dead e le t = record {
    valid = t.valid;
    kept =
        t.kept
        ∙ append_assoc link.wire (take n (drop v.current_offset chunk))
            (pending (advance v chunk rest n))
        ∙ ap (◌++◌ link.wire) (advance-pending v chunk rest n e le);
    flagged = ground (arith, t.flagged, advance-same v chunk rest n);
    same_fd = t.same_fd ∙ (advance-same v chunk rest n).1;
    ended = t.ended;
  }

  sent-Outcome :
      (v : Viewer) (link : Link) (chunk : List ℕ) (rest : List (List ℕ)) (n : ℕ)
      (r : Option (Viewer × Link × Bool))
      → v.send_queue ≡ chunk ∷ rest
      → v.current_offset + n ≤ length chunk
      → Outcome (advance v chunk rest n) (more_sent link (take n (drop v.current_offset chunk))) r
      → Outcome v link r
  sent-Outcome v link chunk rest n none e le o = o
  sent-Outcome v link chunk rest n (some (w, after, dead)) e le o =
      sent-Turn v link chunk rest n w after dead e le o

  advance_less :
      (v : Viewer) (chunk : List ℕ) (rest : List (List ℕ)) (n : ℕ)
      → v.send_queue ≡ chunk ∷ rest
      → 0 < n
      → v.current_offset + n ≤ length chunk
      → length (pending (advance v chunk rest n)) < length (pending v)
  advance_less v chunk rest n e pos le = omega (
    arith,
    ap length (advance-pending v chunk rest n e le),
    length-append (take n (drop v.current_offset chunk)) (pending (advance v chunk rest n)),
    length-take n (drop v.current_offset chunk),
    length-drop v.current_offset chunk,
  )

  -- One call of `send`, by its answer, over what the rest of the turn does.
  round-Outcome :
      (fuel : ℕ) (v : Viewer) (link : Link) (chunk : List ℕ) (rest : List (List ℕ)) (a : SendResult)
      → v.send_queue ≡ chunk ∷ rest
      → v.active ≡ true
      → socket.send link.calls (length chunk - v.current_offset) ≡ a
      → IsValid v
      → ((w : Viewer) (l : Link)
          → IsValid w
          → length (pending w) < length (pending v)
          → Outcome w l (send_queued socket fuel w l))
      → Outcome v link (send_queued socket (suc fuel) v link)
  round-Outcome fuel v link chunk rest (sent n) e on s h more =
      let placed : v.current_offset < length chunk = rw e at h.placed in
      let le : v.current_offset + n ≤ length chunk = omega (arith, socket.sent_le _ _ n s) in
      rw (round_sent fuel v link chunk rest e on n s) (
        sent-Outcome v link chunk rest n _ e le (
          more (advance v chunk rest n) _ (advance-IsValid v chunk rest n e le h)
            (advance_less v chunk rest n e (socket.sent_pos _ _ n s) le)))
  round-Outcome fuel v link chunk rest interrupted e on s h more =
      rw (round_interrupted fuel v link chunk rest e on s) (stopped-Turn v link _ _ s refl h)
  round-Outcome fuel v link chunk rest would_block e on s h more =
      rw (round_would_block fuel v link chunk rest e on s) (stopped-Turn v link _ _ s refl h)
  round-Outcome fuel v link chunk rest failed e on s h more =
      rw (round_failed fuel v link chunk rest e on s) (broken-Turn v link h)

  idle_turn :
      (fuel : ℕ) (v : Viewer) (link : Link)
      → (v.send_queue ≡ []) ⊎ (v.active ≡ false)
      → send_queued socket (suc fuel) v link ≡ some (v, link, false)
  unfolding send_queued
  idle_turn fuel v link h = ground arith

  send_queued-Outcome :
      (fuel : ℕ) (v : Viewer) (link : Link)
      → IsValid v
      → length (pending v) < fuel
      → Outcome v link (send_queued socket fuel v link)
  send_queued-Outcome zero v link h lt = absurd (omega arith)
  send_queued-Outcome (suc fuel) v link h lt =
      by_queue v.send_queue v.active refl refl
        (λ w l hw less. send_queued-Outcome fuel w l hw (omega arith))
    where
      idle :
          (v.send_queue ≡ []) ⊎ (v.active ≡ false)
          → (v.send_queue ≡ []) ⊎ ((v.active ≡ false) ⊎ Refused socket link)
          → Outcome v link (send_queued socket (suc fuel) v link)
      idle i j =
          rw (idle_turn fuel v link i)
            (record { valid = h; kept = refl; flagged = refl; same_fd = refl; ended = j })

      by_queue :
          (chunks : List (List ℕ)) (active : Bool)
          → v.send_queue ≡ chunks
          → v.active ≡ active
          → ((w : Viewer) (l : Link)
              → IsValid w
              → length (pending w) < length (pending v)
              → Outcome w l (send_queued socket fuel w l))
          → Outcome v link (send_queued socket (suc fuel) v link)
      by_queue [] active e on more = idle (inl e) (inl e)
      by_queue (chunk ∷ rest) false e on more = idle (inr on) (inr (inl on))
      by_queue (chunk ∷ rest) true e on more =
          round-Outcome fuel v link chunk rest _ e on refl h more

-- One turn of the sending thread on a viewer in a valid state ends, after at most one call of `send`
-- more than there are bytes queued. The bytes that went onto the wire are the next bytes of the
-- queue, in order: wire and rest together stay the same. The new state is valid; the flag of the
-- viewer is cleared if its connection was reported dead and stays otherwise; and the turn ends only
-- with an empty queue, an inactive viewer or a call that asked for a retry.
pub send_queued-Turn :
    (socket : Socket) (fuel : ℕ) (v : Viewer) (link : Link)
    → IsValid v
    → length (pending v) < fuel
    → (w : Viewer) × (after : Link) × (dead : Bool) × (send_queued socket fuel v link
        ≡ some (w, after, dead))
      × Turn socket v link w after dead
send_queued-Turn socket fuel v link h lt =
    returned (send_queued socket fuel v link) refl (send_queued-Outcome socket fuel v link h lt)
  where
    returned :
        (r : Option (Viewer × Link × Bool))
        → send_queued socket fuel v link ≡ r
        → Outcome socket v link r
        → (w : Viewer) × (after : Link) × (dead : Bool) × (send_queued socket fuel v link
            ≡ some (w, after, dead))
          × Turn socket v link w after dead
    returned none e o = absurd o
    returned (some (w, after, dead)) e o = (w, after, dead, e, o)

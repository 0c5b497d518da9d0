-- ===== src/Stream/Loop.antt =====
-- The loop of `sendAll`: what it has put on the wire when it stops.
use edgevision_rv1126b.Prelude.{
  ℕ, zero, suc, ◌+◌, ◌-◌, ◌≤◌, ◌<◌, ◌≡◌, refl, sym, ap, ◌∙◌, Bool, true, false, List, ◌++◌, Option,
  none, some, arith, length, take, drop, append-nil, append_assoc, take-add, drop-add, lt→ltb,
  le→ltb, dec_lt,
}
use edgevision_rv1126b.Socket.{Socket, Link, SendResult, sent, interrupted, would_block, failed}
use edgevision_rv1126b.Stream.{send_from}

-- The loop, entered with `total` bytes sent, put the next `count` bytes on the wire; it answers true
-- exactly when these are all that were left.
pub record Wrote (bytes : List ℕ) (total : ℕ) (link : Link) (ok : Bool) (after : Link)
    : Type 0 where
  pub count : ℕ
  pub wire : after.wire ≡ link.wire ++ take count (drop total bytes)
  pub complete : ok ≡ true → total + count ≡ length bytes
  pub partial : ok ≡ false → total + count < length bytes

abbrev pub Outcome : List ℕ → ℕ → Link → Option (Bool × Link) → Type 0
Outcome bytes total link none = Unit
Outcome bytes total link (some (ok, after)) = Wrote bytes total link ok after

stopped-Wrote :
    (bytes : List ℕ) (total : ℕ) (link after : Link) (ok : Bool)
    → after.wire ≡ link.wire
    → (ok ≡ true → total ≡ length bytes)
    → (ok ≡ false → total < length bytes)
    → Wrote bytes total link ok after
stopped-Wrote bytes total link after ok e done more = record {
  count = 0;
  wire = e ∙ sym (append-nil link.wire);
  complete = λ t. omega (arith, done t);
  partial = λ f. omega (arith, more f);
}

further-Wrote :
    (bytes : List ℕ) (total n : ℕ) (link next after : Link) (ok : Bool)
    → next.wire ≡ link.wire ++ take n (drop total bytes)
    → Wrote bytes (total + n) next ok after
    → Wrote bytes total link ok after
further-Wrote bytes total n link next after ok e w = record {
  count = n + w.count;
  wire =
      w.wire
      ∙ rw (e, drop-add total n bytes, take-add n w.count (drop total bytes))
          (append_assoc link.wire _ _);
  complete = λ t. omega (arith, w.complete t);
  partial = λ f. omega (arith, w.partial f);
}

Outcome-further :
    (bytes : List ℕ) (total n : ℕ) (link next : Link) (r : Option (Bool × Link))
    → next.wire ≡ link.wire ++ take n (drop total bytes)
    → Outcome bytes (total + n) next r
    → Outcome bytes total link r
Outcome-further bytes total n link next none e w = tt
Outcome-further bytes total n link next (some (ok, after)) e w =
    further-Wrote bytes total n link next after ok e w

Outcome-again :
    (bytes : List ℕ) (total : ℕ) (link next : Link) (r : Option (Bool × Link))
    → next.wire ≡ link.wire
    → Outcome bytes total next r
    → Outcome bytes total link r
Outcome-again bytes total link next none e w = tt
Outcome-again bytes total link next (some (ok, after)) e w = record {
  count = w.count;
  wire = w.wire ∙ ap (λ l. l ++ take w.count (drop total bytes)) e;
  complete = w.complete;
  partial = w.partial;
}

module _ (socket : Socket) where
  -- One round of the loop, by the answer of `send`, over what the rest of the loop does.
  round-Outcome :
      (fuel : ℕ) (bytes : List ℕ) (total : ℕ) (link : Link) (r : SendResult)
      → total < length bytes
      → socket.send link.calls (length bytes - total) ≡ r
      → ((total' : ℕ) (link' : Link)
          → total' ≤ length bytes
          → Outcome bytes total' link' (send_from socket fuel bytes total' link'))
      → Outcome bytes total link (send_from socket (suc fuel) bytes total link)
  unfolding send_from
  round-Outcome fuel bytes total link (sent n) lt e rest =
      rw (lt→ltb _ _ lt, e, send_from)
        (Outcome-further bytes total n link _ _ refl
          (rest (total + n) _ (omega (arith, socket.sent_le _ _ n e))))
  round-Outcome fuel bytes total link interrupted lt e rest =
      rw (lt→ltb _ _ lt, e, send_from)
        (Outcome-again bytes total link _ _ refl (rest total _ (omega arith)))
  round-Outcome fuel bytes total link would_block lt e rest =
      rw (lt→ltb _ _ lt, e, send_from)
        (Outcome-again bytes total link _ _ refl (rest total _ (omega arith)))
  round-Outcome fuel bytes total link failed lt e rest =
      rw (lt→ltb _ _ lt, e, send_from)
        (stopped-Wrote bytes total link _ false refl (λ t. cc) (λ f. lt))

  pub send_from-Outcome :
      (fuel : ℕ) (bytes : List ℕ) (total : ℕ) (link : Link)
      → total ≤ length bytes
      → Outcome bytes total link (send_from socket fuel bytes total link)
  unfolding send_from
  send_from-Outcome zero bytes total link le = tt
  send_from-Outcome (suc fuel) bytes total link le = elim (dec_lt total (length bytes)) [
    | yes lt ↦
        round-Outcome fuel bytes total link _ lt refl (λ t l h. send_from-Outcome fuel bytes t l h)
    | no ge ↦
        rw (le→ltb total (length bytes) (omega arith), send_from)
          (stopped-Wrote bytes total link link true refl (λ t. omega arith) (λ f. cc))
  ]

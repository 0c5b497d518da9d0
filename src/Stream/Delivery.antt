-- ===== src/Stream/Delivery.antt =====
-- `sendPacket`: the bytes on the wire, by its answer.
use native.Mathlib.Nat.{mod-eq_of_lt, sub-zero}
use edgevision_rv1126b.Prelude.{
  ℕ, ◌+◌, ◌*◌, ◌^◌, ◌<◌, ◌≡◌, ◌≢◌, refl, ap, ◌∙◌, ◌⊎◌, inl, inr, Bool, true, false, List, [], ◌++◌,
  none, some, arith, length, take, drop, append_assoc, drop_all, take_all, take-append-drop,
  length-append, length-drop, Option-cases,
}
use edgevision_rv1126b.Wire.{be32, framed, length-be32}
use edgevision_rv1126b.Socket.{Socket, Link, IsPatient}
use edgevision_rv1126b.Stream.{FramedTcpClient, send_from, send_all, send_packet}
use edgevision_rv1126b.Stream.Loop.{Wrote, send_from-Outcome}
use edgevision_rv1126b.Stream.Ends.{fresh_wait, fresh-Enough, send_from-ne-none}

-- The link after a packet that `sendPacket` took on, whether it succeeded or not: the wire has got
-- a part of the framed packet, from its beginning on, and the whole of it exactly on success.
pub record Delivered (packet : List ℕ) (link : Link) (ok : Bool) (after : Link) : Type 0 where
  pub sent_part : List ℕ
  pub unsent : List ℕ
  pub split : framed packet ≡ sent_part ++ unsent
  pub wire : after.wire ≡ link.wire ++ sent_part
  pub all_sent : ok ≡ true → unsent ≡ []
  pub some_left : ok ≡ false → unsent ≢ []

module _ (socket : Socket) (r : ℕ) (patient : IsPatient r socket) where
  send_all-Wrote :
      (fuel : ℕ) (bytes : List ℕ) (link : Link)
      → length bytes * (r + 1) < fuel
      → (ok : Bool) × (after : Link) × (send_all socket fuel bytes link ≡ some (ok, after))
        × Wrote bytes 0 link ok after
  unfolding send_all
  send_all-Wrote fuel bytes link enough =
      by_cases (Option-cases (send_from socket fuel bytes 0 link))
    where
      by_cases :
          (send_from socket fuel bytes 0 link ≡ none)
            ⊎ ((a : Bool × Link) × (send_from socket fuel bytes 0 link ≡ some a))
          → (ok : Bool) × (after : Link) × (send_from socket fuel bytes 0 link ≡ some (ok, after))
            × Wrote bytes 0 link ok after
      by_cases (inl e) = absurd (
          send_from-ne-none socket r patient fuel (fresh_wait socket r patient bytes 0 link) bytes 0
            link
            (fresh-Enough socket r patient fuel bytes 0 link (omega arith) (rw sub-zero enough)) e)
      by_cases (inr ((ok, after), e)) =
          (ok, after, e, rw e at (send_from-Outcome socket fuel bytes 0 link (omega arith)))

header_only :
    (packet : List ℕ) (link after : Link)
    → Wrote (be32 (length packet)) 0 link false after
    → Delivered packet link false after
unfolding framed
header_only packet link after w = record {
  sent_part = take w.count header;
  unsent = drop w.count header ++ packet;
  split = rw (← append_assoc) (rw take-append-drop);
  wire = w.wire;
  all_sent = λ t. cc;
  some_left = λ f e. omega (
    arith,
    w.partial refl,
    length-be32 (length packet),
    ap length e,
    length-append (drop w.count header) packet,
    length-drop w.count header,
  );
}
  where
    header : List ℕ
    header = be32 (length packet)

whole_header :
    (packet : List ℕ) (link middle after : Link) (ok : Bool)
    → Wrote (be32 (length packet)) 0 link true middle
    → Wrote packet 0 middle ok after
    → Delivered packet link ok after
unfolding framed
whole_header packet link middle after ok w v = record {
  sent_part = header ++ take v.count packet;
  unsent = drop v.count packet;
  split = rw append_assoc (rw take-append-drop);
  wire =
      v.wire
      ∙ rw (w.wire, take_all w.count header (omega (arith, w.complete refl)))
          (append_assoc link.wire header (take v.count packet));
  all_sent = λ t. drop_all v.count packet (omega (arith, v.complete t));
  some_left = λ f e. omega (arith, v.partial f, ap length e, length-drop v.count packet);
}
  where
    header : List ℕ
    header = be32 (length packet)

-- On a connected client, over a socket that asks for at most `r` retries in a row, `sendPacket`
-- returns: `(r + 1)` calls of `send` for each byte of the length and of the packet suffice. Either it
-- answers true, and exactly the framed packet has gone onto the wire; or it answers false, and a
-- proper beginning of the framed packet has.
pub send_packet-Delivered :
    (socket : Socket) (r : ℕ)
    → IsPatient r socket
    → (fuel fd : ℕ) (client : FramedTcpClient) (packet : List ℕ) (link : Link)
    → client.sock ≡ some fd
    → length packet < 2 ^ 32
    → 4 * (r + 1) < fuel
    → length packet * (r + 1) < fuel
    → (ok : Bool) × (after : Link) × (send_packet socket fuel client packet link ≡ some (ok, after))
      × Delivered packet link ok after
unfolding send_packet
send_packet-Delivered socket r patient fuel fd client packet link is_open small header_fuel
      body_fuel =
    let (ok, middle, e, w) =
      send_all-Wrote socket r patient fuel (be32 (length packet)) link
        (rw length-be32 header_fuel) in
    finish ok middle e w
  where
    finish :
        (ok : Bool) (middle : Link)
        → send_all socket fuel (be32 (length packet)) link ≡ some (ok, middle)
        → Wrote (be32 (length packet)) 0 link ok middle
        → (ok' : Bool) × (after : Link) × (send_packet socket fuel client packet link
            ≡ some (ok', after))
          × Delivered packet link ok' after
    finish false middle e w = (
      false,
      middle,
      rw (is_open, send_packet, mod-eq_of_lt small, e),
      header_only packet link middle w,
    )
    finish true middle e w =
        let (ok', after, e', v) = send_all-Wrote socket r patient fuel packet middle body_fuel in
        (
          ok',
          after,
          rw (is_open, send_packet, mod-eq_of_lt small, e) e',
          whole_header packet link middle after ok' w v,
        )

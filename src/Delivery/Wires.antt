-- ===== src/Delivery/Wires.antt =====
-- What the calls of `sendPacket` leave on the wire.
use edgevision_rv1126b.Prelude.{
  ℕ, ◌+◌, ◌*◌, ◌≤◌, ◌<◌, ◌≡◌, ◌≢◌, refl, sym, ap, ◌∙◌, inl, inr, Bool, true, false, List, [], ◌∷◌,
  ◌++◌, some, arith, length, drop, All, append_assoc, append-nil, length-append, dec_lt, ◌>>=◌,
}
use edgevision_rv1126b.Wire.{be32, read_be32, framed, framed_all, read_be32-be32, length-be32}
use edgevision_rv1126b.Socket.{Socket, Link, IsPatient}
use edgevision_rv1126b.Stream.{FramedTcpClient}
use edgevision_rv1126b.Stream.Delivery.{Delivered, send_packet-Delivered}
use edgevision_rv1126b.Gateway.Frames.Parses.{IsPartial}
use edgevision_rv1126b.Gateway.Frames.Reassembly.{IsSized}
use edgevision_rv1126b.Delivery.{goes_on, send_packets}

some_left-lt : (xs ys : List ℕ) → ys ≢ [] → length xs < length (xs ++ ys)
some_left-lt xs [] h = absurd (h refl)
some_left-lt xs (y ∷ ys) h = omega (arith, length-append xs (y ∷ ys))

-- The first four bytes of the framed packet, if they are there.
has_header :
    (packet sent unsent : List ℕ)
    → framed packet ≡ sent ++ unsent
    → 4 ≤ length sent
    → sent ≡ be32 (length packet) ++ drop 4 sent
unfolding framed be32
has_header packet [] unsent e h = absurd (omega arith)
has_header packet (a ∷ []) unsent e h = absurd (omega arith)
has_header packet (a ∷ b ∷ []) unsent e h = absurd (omega arith)
has_header packet (a ∷ b ∷ c ∷ []) unsent e h = absurd (omega arith)
has_header packet (a ∷ b ∷ c ∷ d ∷ sent) unsent e h = cc

length-framed : (packet : List ℕ) → length (framed packet) ≡ 4 + length packet
unfolding framed
length-framed packet =
    length-append (be32 (length packet)) packet
    ∙ ap (λ n. n + length packet) (length-be32 (length packet))

-- A proper beginning of a framed packet is a packet that the gateway waits for the rest of.
beginning-IsPartial :
    (packet sent unsent : List ℕ)
    → IsSized packet
    → framed packet ≡ sent ++ unsent
    → unsent ≢ []
    → IsPartial sent
beginning-IsPartial packet sent unsent sized e left = elim (dec_lt (length sent) 4) [
  | yes short ↦ inl short
  | no long ↦
      let n = length packet in
      let same : read_be32 sent ≡ n =
        ap read_be32 (has_header packet sent unsent e (omega arith))
        ∙ read_be32-be32 n (drop 4 sent) (omega (arith, sized.1)) in
      let shorter : length sent < 4 + n =
        omega (arith, some_left-lt sent unsent left, ap length e, length-framed packet) in
      inr (rw same (ground (arith, sized), shorter))
]

-- The wire after the calls: whole framed packets, just those that `sendPacket` answered true for, and
-- possibly the beginning of one more.
pub record Streamed (packets sent : List (List ℕ)) (link after : Link) : Type 0 where
  pub others : List (List ℕ)
  pub in_order : packets ≡ sent ++ others
  pub part : List ℕ
  pub part_partial : IsPartial part
  pub wire : after.wire ≡ link.wire ++ (framed_all sent ++ part)
  pub sized : All IsSized sent

-- A packet that the gateway takes, and for which the fuel is enough with `r` retries in a row.
abbrev pub IsSendable : ℕ → ℕ → List ℕ → Type 0
IsSendable r fuel packet = IsSized packet × (length packet * (r + 1) < fuel)

module _ (socket : Socket) (r : ℕ) (patient : IsPatient r socket) (fuel fd : ℕ)
    (client : FramedTcpClient) (is_open : client.sock ≡ some fd)
    (header_fuel : 4 * (r + 1) < fuel) where
  by_answer :
      (packet : List ℕ) (packets : List (List ℕ)) (link : Link) (ok : Bool) (middle : Link)
      → IsSized packet
      → Delivered packet link ok middle
      → (ok ≡ true
          → (sent : List (List ℕ)) × (after : Link) × (send_packets socket fuel client packets
                middle
              ≡ some (sent, after))
            × Streamed packets sent middle after)
      → (sent : List (List ℕ)) × (after : Link) × (goes_on packet ok middle
            (send_packets socket fuel client packets middle)
          ≡ some (sent, after))
        × Streamed (packet ∷ packets) sent link after
  unfolding goes_on
  by_answer packet packets link false middle sized d rest = (
    [],
    middle,
    refl,
    record {
      others = packet ∷ packets;
      in_order = refl;
      part = d.sent_part;
      part_partial =
          beginning-IsPartial packet d.sent_part d.unsent sized d.split (d.some_left refl);
      wire = d.wire;
      sized = tt;
    },
  )
  by_answer packet packets link true middle sized d rest =
      let (sent, after, runs, s) = rest refl in
      let whole : d.sent_part ≡ framed packet =
        sym (append-nil d.sent_part)
        ∙ ap (λ u. d.sent_part ++ u) (sym (d.all_sent refl))
        ∙ sym d.split in
      (
        packet ∷ sent,
        after,
        rw runs refl,
        record {
          others = s.others;
          in_order = ap (λ ps. packet ∷ ps) s.in_order;
          part = s.part;
          part_partial = s.part_partial;
          wire =
              s.wire
              ∙ ap (λ t. t ++ (framed_all sent ++ s.part)) (d.wire ∙ ap (λ t. link.wire ++ t) whole)
              ∙ append_assoc link.wire (framed packet) (framed_all sent ++ s.part)
              ∙ ap (λ t. link.wire ++ t)
                  (sym (append_assoc (framed packet) (framed_all sent) s.part));
          sized = (sized, s.sized);
        },
      )

  pub send_packets-Streamed :
      (packets : List (List ℕ)) (link : Link)
      → All (IsSendable r fuel) packets
      → (sent : List (List ℕ)) × (after : Link) × (send_packets socket fuel client packets link
          ≡ some (sent, after))
        × Streamed packets sent link after
  unfolding send_packets
  send_packets-Streamed [] link h = (
    [],
    link,
    refl,
    record {
      others = [];
      in_order = refl;
      part = [];
      part_partial = inl (omega arith);
      wire = sym (append-nil link.wire);
      sized = tt;
    },
  )
  send_packets-Streamed (packet ∷ packets) link ((sized, enough), hs) =
      let (ok, middle, runs, d) =
        send_packet-Delivered socket r patient fuel fd client packet link is_open
          (omega (arith, sized.1)) header_fuel enough in
      let (sent, after, more, s) =
        by_answer packet packets link ok middle sized d
          (λ t. send_packets-Streamed packets middle hs) in
      (
        sent,
        after,
        ap (λ o. o >>= λ (b, l). goes_on packet b l (send_packets socket fuel client packets l))
              runs
            ∙ more,
        s,
      )

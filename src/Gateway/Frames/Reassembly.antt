-- ===== src/Gateway/Frames/Reassembly.antt =====
-- Packets are put together again however TCP cuts the stream.
use edgevision_rv1126b.Prelude.{
  ℕ, ◌+◌, ◌≤◌, ◌<◌, ◌≡◌, ◌≢◌, refl, sym, ap, ◌∙◌, Bool, true, false, List, [], ◌∷◌, ◌++◌, Option,
  none, some, arith, if◌then◌else◌, length, take, drop, All, append-nil, append_assoc,
  length-append, length-drop, length-take, take-append_left, drop-append_left, drop-add, inl, inr,
}
use edgevision_rv1126b.Wire.{
  be32, read_be32, framed, framed_all, read_be32-be32, length-be32, drop-be32,
}
use edgevision_rv1126b.Gateway.State.{max_frame_size}
use edgevision_rv1126b.Gateway.Frames.{Received, go, stop, receive}
use edgevision_rv1126b.Gateway.Frames.Parses.{
  IsPartial, Parses, partial, bad, packet, split_frames-Parses, cut, Parses-packet, Parses-append,
  Parses-append_bad,
}

-- A packet that the gateway takes.
abbrev pub IsSized : List ℕ → Type 0
IsSized frame = (0 < length frame) × (length frame ≤ max_frame_size)

abbrev pub answer : List (List ℕ) → List ℕ → Bool → Received
answer frames rest invalid = if invalid then stop else go frames rest

pub receive-Parses :
    (buffer bytes : List ℕ) {frames : List (List ℕ)} {rest : List ℕ} {invalid : Bool}
    → Parses (buffer ++ bytes) frames rest invalid
    → receive buffer bytes ≡ some (answer frames rest invalid)
unfolding receive
receive-Parses buffer bytes p =
    rw (split_frames-Parses p (length (buffer ++ bytes) + 1) [] (omega arith), receive)

-- The loop always ends within its fuel.
pub receive-ne-none : (buffer bytes : List ℕ) → receive buffer bytes ≢ none
receive-ne-none buffer bytes =
    rw (receive-Parses buffer bytes (cut (buffer ++ bytes)).parses) (λ p. cc)

-- The packets of two reads together, while the stream is valid; of a stopped stream only that is kept.
abbrev pub append_frames : List (List ℕ) → Option Received → Option Received
append_frames frames none = none
append_frames frames (some stop) = some stop
append_frames frames (some (go more rest)) = some (go (frames ++ more) rest)

abbrev pub and_then : Option Received → List ℕ → Option Received
and_then none later = none
and_then (some stop) later = some stop
and_then (some (go frames rest)) later = append_frames frames (receive rest later)

append_frames-answer :
    (frames more : List (List ℕ)) (rest : List ℕ) (invalid : Bool)
    → append_frames frames (some (answer more rest invalid))
      ≡ some (answer (frames ++ more) rest invalid)
append_frames-answer frames more rest true = refl
append_frames-answer frames more rest false = refl

receive_cut :
    (buffer bytes later : List ℕ) (frames : List (List ℕ)) (rest : List ℕ) (invalid : Bool)
    → Parses (buffer ++ bytes) frames rest invalid
    → receive buffer (bytes ++ later) ≡ and_then (some (answer frames rest invalid)) later
receive_cut buffer bytes later frames rest true p =
    receive-Parses buffer (bytes ++ later) {frames = frames} {rest = rest ++ later} {invalid = true}
      (rw (← append_assoc) (Parses-append_bad p later refl))
receive_cut buffer bytes later frames rest false p =
    let c = cut (rest ++ later) in
    receive-Parses buffer (bytes ++ later) {frames = frames ++ c.frames} {rest = c.rest}
      {invalid = c.invalid} (rw (← append_assoc) (Parses-append p later refl c.parses))
    ∙ sym (
        rw (receive-Parses rest later c.parses)
          (append_frames-answer frames c.frames c.rest c.invalid))

receive_twice :
    (buffer bytes later : List ℕ)
    → receive buffer (bytes ++ later) ≡ and_then (receive buffer bytes) later
receive_twice buffer bytes later =
    let c = cut (buffer ++ bytes) in
    rw (receive-Parses buffer bytes c.parses)
      (receive_cut buffer bytes later c.frames c.rest c.invalid c.parses)

-- The reads of one connection, in order, handed to the handler one by one.
abbrev pub receive_all : Option Received → List (List ℕ) → Option Received
receive_all r [] = r
receive_all r (chunk ∷ chunks) = receive_all (and_then r chunk) chunks

abbrev pub concat : List (List ℕ) → List ℕ
concat [] = []
concat (chunk ∷ chunks) = chunk ++ concat chunks

framed_packet :
    (frame more : List ℕ) {frames : List (List ℕ)} {rest : List ℕ} {invalid : Bool}
    → IsSized frame
    → Parses more frames rest invalid
    → Parses (framed frame ++ more) (frame ∷ frames) rest invalid
unfolding framed
framed_packet frame more s p = rw append_assoc (
    Parses-packet (be32 n ++ (frame ++ more)) n frame more
      (read_be32-be32 n (frame ++ more) (omega arith)) (ground arith)
      (omega
        (arith, length-append (be32 n) (frame ++ more), length-append frame more, length-be32 n))
      (rw drop-be32 (sym (take-append_left frame more)))
      (rw (drop-add 4 n, drop-be32) (sym (drop-append_left frame more))) p)
  where
    n : ℕ
    n = length frame

framed-Parses :
    (frames : List (List ℕ)) (rest : List ℕ)
    → All IsSized frames
    → IsPartial rest
    → Parses (framed_all frames ++ rest) frames rest false
framed-Parses [] rest sized p = partial p
framed-Parses (frame ∷ frames) rest (s, sized) p =
    rw append_assoc
      (framed_packet frame (framed_all frames ++ rest) s (framed-Parses frames rest sized p))

receive_all-eq-receive :
    (buffer bytes : List ℕ) (chunks : List (List ℕ))
    → receive_all (receive buffer bytes) chunks ≡ receive buffer (bytes ++ concat chunks)
receive_all-eq-receive buffer bytes [] = rw append-nil
receive_all-eq-receive buffer bytes (chunk ∷ chunks) = rw (← receive_twice buffer bytes chunk) (
    receive_all-eq-receive buffer (bytes ++ chunk) chunks
    ∙ ap (receive buffer) (append_assoc bytes chunk (concat chunks)))

receive_nothing : receive [] [] ≡ some (go [] [])
receive_nothing = receive-Parses [] [] (partial (inl (omega arith)))

-- Whatever the reads into which TCP cuts a stream of framed packets of 1 to 2 MiB bytes, the packets
-- come out whole, all of them and in order, and a partial packet at the end stays in the buffer.
pub receive_all-framed_all :
    (frames : List (List ℕ)) (rest : List ℕ) (chunks : List (List ℕ))
    → All IsSized frames
    → IsPartial rest
    → concat chunks ≡ framed_all frames ++ rest
    → receive_all (some (go [] [])) chunks ≡ some (go frames rest)
receive_all-framed_all frames rest chunks sized p e = rw (← receive_nothing) (
    receive_all-eq-receive [] [] chunks
    ∙ ap (receive []) e
    ∙ receive-Parses [] (framed_all frames ++ rest) (framed-Parses frames rest sized p))

-- What the relation lets through.
Parses-IsSized :
    {x : List ℕ} {frames : List (List ℕ)} {rest : List ℕ} {invalid : Bool}
    → Parses x frames rest invalid
    → All IsSized frames
Parses-IsSized (partial h) = tt
Parses-IsSized (bad l b) = tt
Parses-IsSized {x} (packet good l p) = (sized, Parses-IsSized {x = drop (4 + read_be32 x) x} p)
  where
    sized : IsSized (take (read_be32 x) (drop 4 x))
    sized = ground (arith, length-take (read_be32 x) (drop 4 x), length-drop 4 x)

Parses-IsPartial :
    {x : List ℕ} {frames : List (List ℕ)} {rest : List ℕ} {invalid : Bool}
    → Parses x frames rest invalid
    → invalid ≡ false
    → IsPartial rest
Parses-IsPartial (partial h) e = h
Parses-IsPartial (bad l b) e = cc
Parses-IsPartial {x} (packet good l p) e = Parses-IsPartial {x = drop (4 + read_be32 x) x} p e

IsPartial-lt : (x : List ℕ) → IsPartial x → length x < 4 + max_frame_size
IsPartial-lt x (inl h) = omega arith
IsPartial-lt x (inr (good, h)) = ground arith

-- The answer to any bytes.
abbrev pub Bounded : Received → Type 0
Bounded stop = Unit {0}
Bounded (go frames rest) = All IsSized frames × (length rest < 4 + max_frame_size)

-- Whatever bytes arrive, the handler ends, every packet that it hands on has between 1 and
-- `MAX_FRAME_SIZE` bytes, and what it keeps for the next read is shorter than the longest packet
-- with its length.
pub receive-Bounded :
    (buffer bytes : List ℕ) → (r : Received) × (receive buffer bytes ≡ some r) × Bounded r
receive-Bounded buffer bytes =
    let c = cut (buffer ++ bytes) in
    (
      answer c.frames c.rest c.invalid,
      receive-Parses buffer bytes c.parses,
      bounded c.frames c.rest c.invalid (Parses-IsSized c.parses) (Parses-IsPartial c.parses),
    )
  where
    bounded :
        (frames : List (List ℕ)) (rest : List ℕ) (invalid : Bool)
        → All IsSized frames
        → (invalid ≡ false → IsPartial rest)
        → Bounded (answer frames rest invalid)
    bounded frames rest true s p = tt
    bounded frames rest false s p = (s, IsPartial-lt rest (p refl))

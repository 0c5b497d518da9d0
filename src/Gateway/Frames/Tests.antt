-- ===== src/Gateway/Frames/Tests.antt =====
-- The reassembly on small inputs.
use edgevision_rv1126b.Prelude.{ℕ, ◌≡◌, refl, List, [], ◌∷◌, some, arith, inl}
use edgevision_rv1126b.Wire.{be32, read_be32, framed}
use edgevision_rv1126b.Gateway.Frames.{Received, go, stop, split_frames, receive}
use edgevision_rv1126b.Gateway.Frames.Reads.{TwoReads, receive-append}
use edgevision_rv1126b.Gateway.Frames.Reassembly.{
  receive_all, receive_all-framed_all, receive-Bounded, Bounded,
}

-- Two packets and the beginning of a third one, in three reads.
abbrev reads : List (List ℕ)
reads = (0 ∷ 0 ∷ []) ∷ (0 ∷ 2 ∷ 11 ∷ 12 ∷ 0 ∷ 0 ∷ 0 ∷ 1 ∷ []) ∷ (21 ∷ 0 ∷ 0 ∷ []) ∷ []

abbrev packets : List (List ℕ)
packets = (11 ∷ 12 ∷ []) ∷ (21 ∷ []) ∷ []

-- A length of zero ends the stream, and the packet before it is lost.
zero_length_stops : receive [] (0 ∷ 0 ∷ 0 ∷ 1 ∷ 21 ∷ 0 ∷ 0 ∷ 0 ∷ 0 ∷ []) ≡ some stop
unfolding receive split_frames read_be32
zero_length_stops = refl

-- The first packet is handed on before a length of zero comes.
receive-append_example : TwoReads [] (0 ∷ 0 ∷ 0 ∷ 1 ∷ 21 ∷ []) (0 ∷ 0 ∷ 0 ∷ 0 ∷ [])
receive-append_example = receive-append [] (0 ∷ 0 ∷ 0 ∷ 1 ∷ 21 ∷ []) (0 ∷ 0 ∷ 0 ∷ 0 ∷ [])

receive_all-framed_all_example :
    receive_all (some (go [] [])) reads ≡ some (go packets (0 ∷ 0 ∷ []))
unfolding framed be32
receive_all-framed_all_example =
    receive_all-framed_all packets (0 ∷ 0 ∷ []) reads (omega arith) (inl (omega arith)) refl

receive-Bounded_example :
    (r : Received) × (receive [] (0 ∷ 0 ∷ 0 ∷ 1 ∷ 21 ∷ 0 ∷ []) ≡ some r) × Bounded r
receive-Bounded_example = receive-Bounded [] (0 ∷ 0 ∷ 0 ∷ 1 ∷ 21 ∷ 0 ∷ [])

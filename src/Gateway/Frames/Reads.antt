-- ===== src/Gateway/Frames/Reads.antt =====
-- `handleProducerBytes` on the reads of one connection: a read hands its packets on before the next one comes.
use edgevision_rv1126b.Prelude.{
  ℕ, ◌≡◌, refl, Bool, true, false, List, [], ◌++◌, Option, none, some, append_assoc,
}
use edgevision_rv1126b.Gateway.Frames.{Received, go, stop, receive}
use edgevision_rv1126b.Gateway.Frames.Parses.{Parses, cut, Parses-append, Parses-append_bad}
use edgevision_rv1126b.Gateway.Frames.Reassembly.{receive-Parses}

-- The packets that a connection has handed on, and its buffer, which a refused connection has no more.
abbrev pub Heard : Type 0
Heard = List (List ℕ) × Option (List ℕ)

abbrev heard : List (List ℕ) → Option Received → Option Heard
heard before none = none
heard before (some stop) = some (before, none)
heard before (some (go frames rest)) = some (before ++ frames, some rest)

-- One more read.
abbrev pub hear : Heard → List ℕ → Option Heard
hear (before, none) bytes = some (before, none)
hear (before, some buffer) bytes = heard before (receive buffer bytes)

-- The packets of two reads, against those of the first alone and those of one read of all bytes.
abbrev pub in_two : List (List ℕ) → List (List ℕ) → Option (List ℕ) → List (List ℕ)
in_two early at_once none = early
in_two early at_once (some rest) = at_once

-- What two reads and one give.
pub record TwoReads (buffer bytes later : List ℕ) : Type 0 where
  pub early : List (List ℕ)
  pub between : Option (List ℕ)
  pub at_once : List (List ℕ)
  pub last : Option (List ℕ)
  pub first : hear ([], some buffer) bytes ≡ some (early, between)
  pub one : hear ([], some buffer) (bytes ++ later) ≡ some (at_once, last)
  pub two : hear (early, between) later ≡ some (in_two early at_once last, last)
  pub nothing : last ≡ none → at_once ≡ []

two_reads :
    (buffer bytes later : List ℕ) {frames : List (List ℕ)} {rest : List ℕ} (invalid : Bool)
    → Parses (buffer ++ bytes) frames rest invalid
    → TwoReads buffer bytes later
two_reads buffer bytes later {frames} {rest} true p = record {
  early = [];
  between = none;
  at_once = [];
  last = none;
  first = rw (receive-Parses buffer bytes p) refl;
  one =
      rw
        (receive-Parses buffer (bytes ++ later) {frames = frames} {rest = rest ++ later}
          {invalid = true} (rw (← append_assoc) (Parses-append_bad p later refl)))
        refl;
  two = refl;
  nothing = λ e. refl;
}
two_reads buffer bytes later {frames} {rest} false p =
    let c = cut (rest ++ later) in by_verdict c.invalid c.parses
  where
    by_verdict :
        {more : List (List ℕ)} {left : List ℕ} (invalid : Bool)
        → Parses (rest ++ later) more left invalid
        → TwoReads buffer bytes later
    by_verdict {more} {left} true q = record {
      early = frames;
      between = some rest;
      at_once = [];
      last = none;
      first = rw (receive-Parses buffer bytes p) refl;
      one =
          rw
            (receive-Parses buffer (bytes ++ later) {frames = frames ++ more} {rest = left}
              {invalid = true} (rw (← append_assoc) (Parses-append p later refl q)))
            refl;
      two = rw (receive-Parses rest later q) refl;
      nothing = λ e. refl;
    }
    by_verdict {more} {left} false q = record {
      early = frames;
      between = some rest;
      at_once = frames ++ more;
      last = some left;
      first = rw (receive-Parses buffer bytes p) refl;
      one =
          rw
            (receive-Parses buffer (bytes ++ later) {frames = frames ++ more} {rest = left}
              {invalid = false} (rw (← append_assoc) (Parses-append p later refl q)))
            refl;
      two = rw (receive-Parses rest later q) refl;
      nothing = λ e. cc;
    }

-- Bytes that arrive in two reads, against one read of all of them: both ways return, with the same verdict
-- on the stream and the same bytes kept. If the stream is accepted, the two reads hand on the packets that
-- the one hands on, in order. If it is refused, the one read hands on nothing, and the two reads hand on
-- what the first of them does, since these packets are gone before the refusal.
pub receive-append : (buffer bytes later : List ℕ) → TwoReads buffer bytes later
receive-append buffer bytes later =
    let c = cut (buffer ++ bytes) in two_reads buffer bytes later c.invalid c.parses

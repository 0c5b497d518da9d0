-- ===== src/Gateway/Server/Probe.antt =====
-- The first bytes of a connection decide its role.
use edgevision_rv1126b.Prelude.{
  ℕ, ◌<◌, ◌≡◌, sym, ◌∙◌, false, List, ◌++◌, some, arith, length, lt→leb_false, append_assoc,
  ==_refl,
}
use edgevision_rv1126b.Prelude.Maps.{
  Map, insert, contains, lookup-insert, insert-insert, erase-insert,
}
use edgevision_rv1126b.Wire.{be32, framed}
use edgevision_rv1126b.Gateway.State.{TcpServer, probe_bytes}
use edgevision_rv1126b.Gateway.Frames.Reassembly.{IsSized}
use edgevision_rv1126b.Gateway.Server.{◌>>=◌, is_get, probe_of, serve_probe, on_bytes}

-- No packet of at most `MAX_FRAME_SIZE` bytes begins like a request: "GET " is a length of over 1 GiB.
pub is_get-framed : (frame more : List ℕ) → IsSized frame → is_get (framed frame ++ more) ≡ false
unfolding framed be32
is_get-framed frame more sized = ground arith

undecided_bytes :
    (s : TcpServer) (fd : ℕ) (bytes : List ℕ)
    → contains fd s.viewers ≡ false
    → contains fd s.producers ≡ false
    → on_bytes s fd bytes ≡ serve_probe s fd bytes
unfolding on_bytes
undecided_bytes s fd bytes nv nr = rw (nv, nr)

abbrev waiting : TcpServer → ℕ → List ℕ → TcpServer
waiting s fd probe = record s { pending_probe = insert fd probe s.pending_probe }

probe_short :
    (s : TcpServer) (fd : ℕ) (bytes : List ℕ)
    → length (probe_of fd s.pending_probe ++ bytes) < probe_bytes
    → serve_probe s fd bytes ≡ some (waiting s fd (probe_of fd s.pending_probe ++ bytes))
unfolding serve_probe
probe_short s fd bytes short = rw (lt→leb_false probe_bytes _ short)

probe_of-insert :
    (fd : ℕ) (probe : List ℕ) (m : Map (List ℕ)) → probe_of fd (insert fd probe m) ≡ probe
probe_of-insert fd probe m = rw (lookup-insert fd fd probe m, ==_refl fd, probe_of)

serve_probe-waiting :
    (s : TcpServer) (fd : ℕ) (first later : List ℕ)
    → serve_probe (waiting s fd (probe_of fd s.pending_probe ++ first)) fd later
      ≡ serve_probe s fd (first ++ later)
unfolding serve_probe
serve_probe-waiting s fd first later = rw (
  probe_of-insert fd (probe_of fd s.pending_probe ++ first) s.pending_probe,
  append_assoc (probe_of fd s.pending_probe) first later,
  erase-insert fd (probe_of fd s.pending_probe ++ first) s.pending_probe,
  insert-insert fd (probe_of fd s.pending_probe ++ (first ++ later))
      (probe_of fd s.pending_probe ++ first) s.pending_probe,
  serve_probe,
  waiting,
)

-- While the first four bytes are not complete, the server only collects them: a descriptor that is
-- neither viewer nor producer ends in the same state whether its bytes come in one read or in two,
-- the first of which leaves fewer than four bytes collected.
pub on_bytes-append :
    (s : TcpServer) (fd : ℕ) (first later : List ℕ)
    → contains fd s.viewers ≡ false
    → contains fd s.producers ≡ false
    → length (probe_of fd s.pending_probe ++ first) < probe_bytes
    → (on_bytes s fd first >>= λ after. on_bytes after fd later) ≡ on_bytes s fd (first ++ later)
on_bytes-append s fd first later nv nr short =
    rw (undecided_bytes s fd first nv nr, probe_short s fd first short)
      (undecided_bytes (waiting s fd (probe_of fd s.pending_probe ++ first)) fd later nv nr
        ∙ serve_probe-waiting s fd first later
        ∙ sym (undecided_bytes s fd (first ++ later) nv nr))

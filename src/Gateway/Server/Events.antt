-- ===== src/Gateway/Server/Events.antt =====
-- The invariant over the events of the loop.
use edgevision_rv1126b.Prelude.{
  ℕ, ◌≡◌, false, List, [], ◌∷◌, ◌++◌, some, arith, leb, length, All, if-intro, ==_refl,
}
use edgevision_rv1126b.Prelude.Maps.{erase, contains, contains-insert, contains-erase}
use edgevision_rv1126b.Gateway.State.{TcpServer, probe_bytes}
use edgevision_rv1126b.Gateway.Server.{
  keep_bytes, is_get, probe_of, serve_probe, on_bytes, accept_all, Event, accepts, hangs_up, reads,
  ends, not_ready, on_event,
}
use edgevision_rv1126b.Gateway.Server.Invariant.{
  IsValid, Keeps, handle_viewer_request-IsValid, keep_bytes-IsValid, kept, remove_viewer-IsValid,
  serve_producer-Keeps,
}

serve_probe-Keeps :
    (s : TcpServer) (fd : ℕ) (bytes : List ℕ)
    → contains fd s.viewers ≡ false
    → contains fd s.producers ≡ false
    → IsValid s
    → Keeps (serve_probe s fd bytes)
unfolding serve_probe
serve_probe-Keeps s fd bytes nv nr v =
    if-intro Keeps (leb probe_bytes (length probe))
      (λ long.
        if-intro Keeps (is_get probe)
          (λ get. handle_viewer_request-IsValid decided fd nr undecided decided-IsValid)
          (λ other.
            serve_producer-Keeps (keep_bytes decided fd []) fd probe (nv, undecided)
              (keep_bytes-IsValid decided fd [] (nv, undecided) decided-IsValid)))
      (λ short. record {
        roles =
            λ other. ground (arith, v.roles other, contains-insert fd other probe s.pending_probe);
        entries = v.entries;
      })
  where
    probe : List ℕ
    probe = probe_of fd s.pending_probe ++ bytes

    decided : TcpServer
    decided = record s { pending_probe = erase fd s.pending_probe }

    undecided : contains fd (erase fd s.pending_probe) ≡ false
    undecided = rw (contains-erase, ==_refl)

    decided-IsValid : IsValid decided
    decided-IsValid = record {
      roles = λ other. ground (arith, v.roles other, contains-erase fd other s.pending_probe);
      entries = v.entries;
    }

on_bytes-Keeps : (s : TcpServer) (fd : ℕ) (bytes : List ℕ) → IsValid s → Keeps (on_bytes s fd bytes)
unfolding on_bytes
on_bytes-Keeps s fd bytes v =
    if-intro Keeps (contains fd s.viewers) (λ viewer. v)
      (λ nv.
        if-intro Keeps (contains fd s.producers)
          (λ producer. serve_producer-Keeps s fd bytes (nv, ground (arith, v.roles fd)) v)
          (λ nr. serve_probe-Keeps s fd bytes nv nr v))

-- `accept` returns descriptors that are not open, so the server has none of them as a viewer or a
-- producer.
abbrev pub AreNew : TcpServer → List ℕ → Type 0
AreNew s = All (λ fd. (contains fd s.viewers ≡ false) × (contains fd s.producers ≡ false))

accept_all-IsValid :
    (fds : List ℕ) (s : TcpServer) → AreNew s fds → IsValid s → IsValid (accept_all s fds)
unfolding accept_all
accept_all-IsValid [] s new v = v
accept_all-IsValid (fd ∷ fds) s ((nv, nr), new) v = accept_all-IsValid fds _ new (record {
  roles = λ other. ground (arith, v.roles other, contains-insert fd other [] s.pending_probe);
  entries = v.entries;
})

-- What the system promises of an event.
abbrev pub IsPossible : TcpServer → Event → Type 0
IsPossible s (accepts fds) = AreNew s fds
IsPossible s event = Unit {0}

on_event-Keeps :
    (event : Event) (s : TcpServer) → IsPossible s event → IsValid s → Keeps (on_event s event)
unfolding on_event
on_event-Keeps (accepts fds) s new v = accept_all-IsValid fds s new v
on_event-Keeps (hangs_up fd) s _ v = remove_viewer-IsValid s fd v
on_event-Keeps (reads fd bytes) s _ v = on_bytes-Keeps s fd bytes v
on_event-Keeps (ends fd) s _ v = remove_viewer-IsValid s fd v
on_event-Keeps (not_ready fd) s _ v = v

-- Every event is handled to its end, whatever bytes it brings, and keeps the invariant: each
-- descriptor has one role at most, and each viewer stands under its own descriptor with a queue of at
-- most 15 chunks, none of them empty, the first of which is not yet sent whole.
pub on_event-IsValid :
    (s : TcpServer) (event : Event)
    → IsPossible s event
    → IsValid s
    → (after : TcpServer) × (on_event s event ≡ some after) × IsValid after
on_event-IsValid s event possible v = kept (on_event s event) (on_event-Keeps event s possible v)

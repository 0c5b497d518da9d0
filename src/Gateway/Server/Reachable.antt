-- ===== src/Gateway/Server/Reachable.antt =====
-- The two threads of the gateway: the event loop and the sending thread take turns, since each holds
-- `viewers_mtx` while it works on the viewers.
use edgevision_rv1126b.Prelude.{
  ℕ, ◌+◌, ◌<◌, ◌≡◌, refl, ◌∙◌, List, [], ◌∷◌, some, arith, if◌then◌else◌, length, All,
  length-append, length-drop,
}
use edgevision_rv1126b.Prelude.Maps.{Map, contains}
use edgevision_rv1126b.Socket.{Socket, Link}
use edgevision_rv1126b.Gateway.State.{Viewer, TcpServer, initial}
use edgevision_rv1126b.Gateway.Sender.{queued_bytes, set_link, send_to_viewers}
use edgevision_rv1126b.Gateway.Sender.Progress.{pending}
use edgevision_rv1126b.Gateway.Sender.Turns.{send_queued-Turn}
use edgevision_rv1126b.Gateway.Frames.Reassembly.{concat}
use edgevision_rv1126b.Gateway.Server.{Event, on_event, sender_round, remove_all}
use edgevision_rv1126b.Gateway.Server.Invariant.{
  Entry, IsValid, initial-IsValid, remove_all-IsValid,
}
use edgevision_rv1126b.Gateway.Server.Events.{IsPossible, on_event-IsValid}

length-concat : (chunks : List (List ℕ)) → length (concat chunks) ≡ queued_bytes chunks
length-concat [] = refl
length-concat (chunk ∷ chunks) =
    omega (arith, length-append chunk (concat chunks), length-concat chunks)

pending_lt : (v : Viewer) → length (pending v) < queued_bytes v.send_queue + 1
pending_lt v =
    omega (arith, length-drop v.current_offset (concat v.send_queue), length-concat v.send_queue)

module _ (sockets : ℕ → Socket) where
  -- What the pass over the viewers leaves of them.
  record Passed (viewers after : Map Viewer) : Type 0 where
    entries : All Entry after
    same_keys : (fd : ℕ) → contains fd after ≡ contains fd viewers

  cons-Passed :
      (fd : ℕ) (v w : Viewer) (viewers rest : Map Viewer)
      → Entry (fd, w)
      → Passed viewers rest
      → Passed ((fd, v) ∷ viewers) ((fd, w) ∷ rest)
  unfolding contains
  cons-Passed fd v w viewers rest e p = record {
    entries = (e, p.entries);
    same_keys = λ other. rw (p.same_keys other);
  }

  send_to_viewers-Passed :
      (viewers : Map Viewer) (links : ℕ → Link)
      → All Entry viewers
      → (after : Map Viewer) × (links' : ℕ → Link) × (dead_fds : List ℕ) × (send_to_viewers sockets
            viewers links
          ≡ some (after, links', dead_fds))
        × Passed viewers after
  unfolding send_to_viewers
  send_to_viewers-Passed [] links h =
      ([], links, [], refl, record { entries = tt; same_keys = λ fd. refl })
  send_to_viewers-Passed ((fd, v) ∷ viewers) links ((same, valid), h) =
      let (w, link, dead, e, turn) =
        send_queued-Turn (sockets v.fd) (queued_bytes v.send_queue + 1) v (links v.fd) valid
          (pending_lt v) in
      let (rest, links', dead_fds, e', p) =
        send_to_viewers-Passed viewers (set_link v.fd link links) h in
      (
        (fd, w) ∷ rest,
        links',
        if dead then v.fd ∷ dead_fds else dead_fds,
        rw (e, send_to_viewers, e'),
        cons-Passed fd v w viewers rest (turn.same_fd ∙ same, turn.valid) p,
      )

  -- A round of the sending thread ends, and keeps the invariant.
  sender_round-IsValid :
      (s : TcpServer) (links : ℕ → Link)
      → IsValid s
      → (after : TcpServer) × (links' : ℕ → Link) × (sender_round sockets s links
          ≡ some (after, links'))
        × IsValid after
  unfolding sender_round
  sender_round-IsValid s links v =
      let (viewers, links', dead_fds, e, p) = send_to_viewers-Passed s.viewers links v.entries in
      (
        remove_all (record s { viewers = viewers }) dead_fds,
        links',
        rw (e, sender_round),
        remove_all-IsValid dead_fds _
            (record { roles = λ fd. rw (p.same_keys fd) (v.roles fd); entries = p.entries }),
      )

  -- The states of the server and of its links that the threads reach together.
  pub data Reachable : TcpServer → (ℕ → Link) → Type 0 where
    started : {links : ℕ → Link} → Reachable initial links
    event :
        {s after : TcpServer} {links : ℕ → Link}
        → (e : Event) → IsPossible s e
        → Reachable s links
        → on_event s e ≡ some after
        → Reachable after links
    round :
        {s after : TcpServer} {links links' : ℕ → Link}
        → Reachable s links
        → sender_round sockets s links ≡ some (after, links')
        → Reachable after links'

  IsValid-of_Reachable : {s : TcpServer} {links : ℕ → Link} → Reachable s links → IsValid s
  IsValid-of_Reachable started = initial-IsValid
  IsValid-of_Reachable (event {s} {after} e possible r eq) =
      let (after', eq', v) = on_event-IsValid s e possible (IsValid-of_Reachable r) in
      let same : after' ≡ after = cc in rw (← same) v
  IsValid-of_Reachable (round {s} {after} {links} r eq) =
      let (after', links', eq', v) = sender_round-IsValid s links (IsValid-of_Reachable r) in
      let same : after' ≡ after = cc in rw (← same) v

-- However the events and the rounds of the sending thread take turns from the start on, over any
-- sockets and bytes, the server is in a valid state: each descriptor is a viewer, a producer or
-- undecided and never two of these, and each viewer has a queue of at most 15 chunks. And neither
-- thread gets stuck in a loop: every possible event is handled to its end, and so is every round.
pub Reachable-IsValid :
    (sockets : ℕ → Socket) (s : TcpServer) (links : ℕ → Link)
    → Reachable sockets s links
    → IsValid s
      × ((e : Event)
          → IsPossible s e
          → (after : TcpServer) × (on_event s e ≡ some after) × Reachable sockets after links)
      × ((after : TcpServer) × (links' : ℕ → Link) × (sender_round sockets s links
            ≡ some (after, links'))
          × Reachable sockets after links')
Reachable-IsValid sockets s links r =
    let v = IsValid-of_Reachable sockets r in
    let (next, links', e', _) = sender_round-IsValid sockets s links v in
    (
      v,
      λ e possible.
          let (after, eq, _) = on_event-IsValid s e possible v in
          (after, eq, event e possible r eq),
      (next, links', e', round r e'),
    )

-- ===== src/Gateway/Server.antt =====
-- The handlers of camera_gateway/src/TcpServer.cpp and the body of its event loop. A handler returns
-- the server that it leaves; `none` says that a scan ran out of fuel, which `Server/Events` excludes.
pub mod Removal
pub mod Invariant
pub mod Events
pub mod Reachable
pub mod Probe
pub mod Bootstrap
mod Tests
pub use edgevision_rv1126b.Prelude.{◌>>=◌, is_empty}
use edgevision_rv1126b.Prelude.{
  ℕ, Bool, true, false, ◌&&◌, ◌||◌, List, [], ◌∷◌, ◌++◌, Option, none, some, ltb, leb, ◌==◌,
  if◌then◌else◌, length,
}
use edgevision_rv1126b.Text.{ascii}
use edgevision_rv1126b.Prelude.Maps.{Map, lookup, insert, erase, contains}
use edgevision_rv1126b.Socket.{Socket, Link}
use edgevision_rv1126b.AnnexB.{contains_nal_type, extract_bootstrap_config}
use edgevision_rv1126b.Gateway.State.{Viewer, ProducerState, TcpServer, probe_bytes}
use edgevision_rv1126b.Gateway.Frames.{Received, go, stop, receive}
use edgevision_rv1126b.Gateway.Viewers.{queue_frame_all}
use edgevision_rv1126b.Gateway.Sender.{send_to_viewers}

-- The maps without `fd`; the descriptor is closed if one of them had it.
unfoldable pub remove_viewer : TcpServer → ℕ → TcpServer
remove_viewer s fd =
    let should_close =
      contains fd s.viewers || (contains fd s.producers || contains fd s.pending_probe) in
    record s {
      viewers = erase fd s.viewers;
      producers = erase fd s.producers;
      pending_probe = erase fd s.pending_probe;
      closed = if should_close then fd ∷ s.closed else s.closed;
    }

unfoldable pub remove_all : TcpServer → List ℕ → TcpServer
unfolding remove_viewer
remove_all s [] = s
remove_all s (fd ∷ fds) = remove_all (remove_viewer s fd) fds

abbrev crlf : List ℕ
crlf = 13 ∷ 10 ∷ []

pub http_header : List ℕ
http_header =
    ascii "HTTP/1.1 200 OK"
    ++ (crlf
        ++ (ascii "Connection: keep-alive"
            ++ (crlf
                ++ (ascii "Cache-Control: no-cache"
                    ++ (crlf
                        ++ (ascii "Pragma: no-cache"
                            ++ (crlf ++ (ascii "Content-Type: video/h264" ++ (crlf ++ crlf)))))))))

abbrev pub non_empty : List ℕ → List (List ℕ)
non_empty [] = []
non_empty (b ∷ bytes) = (b ∷ bytes) ∷ []

-- The header, then the cached parameter sets and key frame, where there are any.
abbrev pub first_viewer : TcpServer → ℕ → Viewer
first_viewer s fd = record {
  fd = fd;
  send_queue = http_header ∷ (non_empty s.bootstrap_config ++ non_empty s.bootstrap_frame);
  current_offset = 0;
  active = true;
}

unfoldable pub handle_viewer_request : TcpServer → ℕ → TcpServer
handle_viewer_request s fd = record s { viewers = insert fd (first_viewer s fd) s.viewers }

unfoldable pub queue_frame_for_viewers : TcpServer → List ℕ → TcpServer
unfolding remove_all
queue_frame_for_viewers s frame =
    let (viewers, dead_fds) = queue_frame_all frame s.viewers in
    remove_all (record s { viewers = viewers }) dead_fds

-- The two caches for new viewers, as `handleCompleteFrame` renews them.
unfoldable pub renew_bootstrap : TcpServer → List ℕ → List ℕ → Bool → TcpServer
renew_bootstrap s frame config has_idr = record s {
  bootstrap_config = if is_empty config then s.bootstrap_config else config;
  bootstrap_frame = if has_idr then frame else s.bootstrap_frame;
}

unfoldable pub handle_complete_frame : TcpServer → List ℕ → Option TcpServer
unfolding renew_bootstrap queue_frame_for_viewers
handle_complete_frame s frame = do
  config ← extract_bootstrap_config frame
  has_idr ← contains_nal_type frame 5
  some (queue_frame_for_viewers (renew_bootstrap s frame config has_idr) frame)

unfoldable pub handle_complete_frames : TcpServer → List (List ℕ) → Option TcpServer
unfolding handle_complete_frame
handle_complete_frames s [] = some s
handle_complete_frames s (frame ∷ frames) =
    handle_complete_frame s frame >>= λ after. handle_complete_frames after frames

-- `producers[fd]`, which makes an empty state for a new key.
abbrev pub recv_buffer_of : ℕ → Map ProducerState → List ℕ
recv_buffer_of fd producers = elim (lookup fd producers) [
  | none ↦ []
  | some state ↦ state.recv_buffer
]

abbrev pub keep_bytes : TcpServer → ℕ → List ℕ → TcpServer
keep_bytes s fd rest = record s {
  producers = insert fd (record { recv_buffer = rest }) s.producers;
}

-- The flag is the handler's result: false for an invalid stream.
unfoldable pub handle_producer_bytes : TcpServer → ℕ → List ℕ → Option (TcpServer × Bool)
unfolding handle_complete_frames
handle_producer_bytes s fd bytes = elim (receive (recv_buffer_of fd s.producers) bytes) [
  | none ↦ none
  | some stop ↦ some (keep_bytes s fd [], false)
  | some (go frames rest) ↦
      handle_complete_frames (keep_bytes s fd rest) frames >>= λ after. some (after, true)
]

-- What the event loop does with the bytes of a producer.
unfoldable pub serve_producer : TcpServer → ℕ → List ℕ → Option TcpServer
unfolding handle_producer_bytes remove_viewer
serve_producer s fd bytes = do
  (after, ok) ← handle_producer_bytes s fd bytes
  some (if ok then after else remove_viewer after fd)

-- `memcmp(probe.data(), "GET ", 4) == 0`.
abbrev pub is_get : List ℕ → Bool
is_get (a ∷ b ∷ c ∷ d ∷ _) = a == b'G' && (b == b'E' && (c == b'T' && (d == b' ')))
is_get _ = false

abbrev pub probe_of : ℕ → Map (List ℕ) → List ℕ
probe_of fd pending_probe = elim (lookup fd pending_probe) [ none ↦ [] | some probe ↦ probe ]

-- The first bytes of a connection, until there are four: then it is a viewer or a producer.
unfoldable pub serve_probe : TcpServer → ℕ → List ℕ → Option TcpServer
unfolding handle_viewer_request serve_producer
serve_probe s fd bytes =
    let probe = probe_of fd s.pending_probe ++ bytes in
    let decided = record s { pending_probe = erase fd s.pending_probe } in
    if leb probe_bytes (length probe)
    then (if is_get probe
        then some (handle_viewer_request decided fd)
        else serve_producer (keep_bytes decided fd []) fd probe)
    else some (record s { pending_probe = insert fd probe s.pending_probe })

-- `read` returned some bytes.
unfoldable pub on_bytes : TcpServer → ℕ → List ℕ → Option TcpServer
unfolding serve_probe
on_bytes s fd bytes =
    if contains fd s.viewers
    then some s
    else if contains fd s.producers
    then serve_producer s fd bytes
    else serve_probe s fd bytes

-- The accept loop: each new descriptor waits for its first bytes.
unfoldable pub accept_all : TcpServer → List ℕ → TcpServer
accept_all s [] = s
accept_all s (fd ∷ fds) = accept_all (record s { pending_probe = insert fd [] s.pending_probe }) fds

-- One entry of `events`, with what the system calls on it answer.
pub data Event : Type 0 where
  -- The listening socket: the descriptors that `accept` returns until it fails.
  accepts : List ℕ → Event
  -- EPOLLERR, EPOLLHUP or EPOLLRDHUP.
  hangs_up : ℕ → Event
  -- `read` returns bytes.
  reads : ℕ → List ℕ → Event
  -- `read` returns 0, or fails otherwise than by EAGAIN, EWOULDBLOCK or EINTR.
  ends : ℕ → Event
  -- `read` fails by one of these.
  not_ready : ℕ → Event

unfoldable pub on_event : TcpServer → Event → Option TcpServer
unfolding accept_all on_bytes remove_viewer
on_event s (accepts fds) = some (accept_all s fds)
on_event s (hangs_up fd) = some (remove_viewer s fd)
on_event s (reads fd bytes) = on_bytes s fd bytes
on_event s (ends fd) = some (remove_viewer s fd)
on_event s (not_ready fd) = some s

unfoldable pub on_events : TcpServer → List Event → Option TcpServer
unfolding on_event
on_events s [] = some s
on_events s (event ∷ events) = on_event s event >>= λ after. on_events after events

-- One round of `senderLoop`: every viewer gets what its connection takes, then the dead ones go.
unfoldable pub sender_round :
    (ℕ → Socket) → TcpServer → (ℕ → Link) → Option (TcpServer × (ℕ → Link))
unfolding remove_all
sender_round sockets s links = elim (send_to_viewers sockets s.viewers links) [
  | none ↦ none
  | some (viewers, links', dead_fds) ↦
      some (remove_all (record s { viewers = viewers }) dead_fds, links')
]

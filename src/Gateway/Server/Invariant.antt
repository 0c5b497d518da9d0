-- ===== src/Gateway/Server/Invariant.antt =====
-- The invariant of the server, and that each handler keeps it.
use edgevision_rv1126b.Prelude.{
  ℕ, ◌≤◌, ◌<◌, ◌≡◌, ◌≢◌, refl, ◌∙◌, Bool, true, false, ◌&&◌, ◌||◌, List, [], ◌∷◌, Option, none,
  some, arith, length, All, if-intro, All-append, length-append,
}
use edgevision_rv1126b.Prelude.Maps.{
  Map, contains, contains-insert, contains-erase, All-insert, All-erase,
}
use edgevision_rv1126b.AnnexB.{contains_nal_type, extract_bootstrap_config}
use edgevision_rv1126b.AnnexB.Scan.{contains_nal_type_sound, extract_bootstrap_config-ne-none}
use edgevision_rv1126b.Gateway.State.{Viewer, TcpServer, initial}
use edgevision_rv1126b.Gateway.Frames.{Received, go, stop, receive}
use edgevision_rv1126b.Gateway.Frames.Reassembly.{IsSized, Bounded, receive-Bounded}
use edgevision_rv1126b.Gateway.Viewers.{queue_frame_all}
use edgevision_rv1126b.Gateway.Viewers.Queues
use edgevision_rv1126b.Gateway.Viewers.Queues.{queue_frame_refines}
use edgevision_rv1126b.Gateway.Server.{
  ◌>>=◌, non_empty, first_viewer, remove_viewer, remove_all, http_header, handle_viewer_request,
  queue_frame_for_viewers, renew_bootstrap, handle_complete_frame, handle_complete_frames,
  recv_buffer_of, keep_bytes, handle_producer_bytes, serve_producer,
}

-- Of three flags one at most is set.
abbrev pub AtMostOne : Bool → Bool → Bool → Type 0
AtMostOne a b c = ((a && b) || ((a && c) || (b && c))) ≡ false

-- An entry of `viewers` stands under its own descriptor, and its queue is in a valid state.
abbrev pub Entry : ℕ × Viewer → Type 0
Entry (fd, viewer) = (viewer.fd ≡ fd) × Queues.IsValid viewer

abbrev pub Disjoint : TcpServer → Type 0
Disjoint s =
    (fd : ℕ)
    → AtMostOne (contains fd s.viewers) (contains fd s.producers) (contains fd s.pending_probe)

pub record IsValid (s : TcpServer) : Type 0 where
  -- A descriptor is a viewer, a producer or undecided, and never two of these.
  pub roles : Disjoint s
  pub entries : All Entry s.viewers

pub initial-IsValid : IsValid initial
unfolding contains
initial-IsValid = record { roles = λ fd. refl; entries = tt }

pub remove_viewer-IsValid : (s : TcpServer) (fd : ℕ) → IsValid s → IsValid (remove_viewer s fd)
unfolding remove_viewer
remove_viewer-IsValid s fd v = record {
  roles = λ other. ground (
    arith,
    v.roles other,
    contains-erase fd other s.viewers,
    contains-erase fd other s.producers,
    contains-erase fd other s.pending_probe,
  );
  entries = All-erase Entry fd s.viewers v.entries;
}

pub remove_all-IsValid : (fds : List ℕ) (s : TcpServer) → IsValid s → IsValid (remove_all s fds)
unfolding remove_all
remove_all-IsValid [] s v = v
remove_all-IsValid (fd ∷ fds) s v =
    remove_all-IsValid fds (remove_viewer s fd) (remove_viewer-IsValid s fd v)

-- The keys stay.
contains-queue_frame_all :
    (frame : List ℕ) (fd : ℕ) (viewers : Map Viewer)
    → contains fd (queue_frame_all frame viewers).0 ≡ contains fd viewers
unfolding queue_frame_all contains
contains-queue_frame_all frame fd [] = refl
contains-queue_frame_all frame fd ((k, w) ∷ viewers) =
    ground (arith, contains-queue_frame_all frame fd viewers)

queue_frame_all-Entry :
    (frame : List ℕ) (viewers : Map Viewer)
    → 0 < length frame
    → All Entry viewers
    → All Entry (queue_frame_all frame viewers).0
unfolding queue_frame_all
queue_frame_all-Entry frame [] pos h = tt
queue_frame_all-Entry frame ((k, w) ∷ viewers) pos ((e, q), h) =
    let rest = queue_frame_all-Entry frame viewers pos h in
    let (_, _, same_fd, _, valid) = queue_frame_refines frame w pos q in
    if-intro {A = Map Viewer × List ℕ} (λ r. All Entry r.0) w.active
      (λ on. ((same_fd ∙ e, valid), rest)) (λ off. ((e, q), rest))

queue_frame_for_viewers-IsValid :
    (s : TcpServer) (frame : List ℕ)
    → 0 < length frame
    → IsValid s
    → IsValid (queue_frame_for_viewers s frame)
unfolding queue_frame_for_viewers
queue_frame_for_viewers-IsValid s frame pos v =
    remove_all-IsValid (queue_frame_all frame s.viewers).1 _ (record {
      roles = λ fd. rw (contains-queue_frame_all frame fd s.viewers) (v.roles fd);
      entries = queue_frame_all-Entry frame s.viewers pos v.entries;
    })

-- A handler that can stop early for want of fuel: it does not, and it keeps the invariant.
abbrev pub Keeps : Option TcpServer → Type 0
Keeps none = ⊥
Keeps (some after) = IsValid after

handle_complete_frame-Keeps :
    (s : TcpServer) (frame : List ℕ)
    → 0 < length frame
    → IsValid s
    → Keeps (handle_complete_frame s frame)
unfolding handle_complete_frame
handle_complete_frame-Keeps s frame pos v =
    by_results (extract_bootstrap_config frame) (contains_nal_type frame 5)
      (extract_bootstrap_config-ne-none frame) (contains_nal_type_sound frame 5).0
  where
    by_results :
        (config : Option (List ℕ)) (has_idr : Option Bool)
        → config ≢ none
        → has_idr ≢ none
        → Keeps (
            config >>= λ c.
            has_idr >>= λ b. some (queue_frame_for_viewers (renew_bootstrap s frame c b) frame))
    by_results none has_idr n m = absurd (n refl)
    by_results (some c) none n m = absurd (m refl)
    by_results (some c) (some b) n m =
        queue_frame_for_viewers-IsValid (renew_bootstrap s frame c b) frame pos
          (record { roles = v.roles; entries = v.entries })

>>=-Keeps :
    (r : Option TcpServer) (f : TcpServer → Option TcpServer)
    → Keeps r
    → ((after : TcpServer) → IsValid after → Keeps (f after))
    → Keeps (r >>= f)
>>=-Keeps none f k h = absurd k
>>=-Keeps (some after) f k h = h after k

handle_complete_frames-Keeps :
    (frames : List (List ℕ)) (s : TcpServer)
    → All IsSized frames
    → IsValid s
    → Keeps (handle_complete_frames s frames)
unfolding handle_complete_frames
handle_complete_frames-Keeps [] s sized v = v
handle_complete_frames-Keeps (frame ∷ frames) s ((pos, _), sized) v =
    >>=-Keeps (handle_complete_frame s frame) (λ after. handle_complete_frames after frames)
      (handle_complete_frame-Keeps s frame pos v)
      (λ after w. handle_complete_frames-Keeps frames after sized w)

-- `fd` is neither a viewer nor undecided.
abbrev pub CanProduce : TcpServer → ℕ → Type 0
CanProduce s fd = (contains fd s.viewers ≡ false) × (contains fd s.pending_probe ≡ false)

pub keep_bytes-IsValid :
    (s : TcpServer) (fd : ℕ) (rest : List ℕ)
    → CanProduce s fd
    → IsValid s
    → IsValid (keep_bytes s fd rest)
keep_bytes-IsValid s fd rest (nv, np) v = record {
  roles = λ other.
      ground (
        arith,
        v.roles other,
        contains-insert fd other (record { recv_buffer = rest }) s.producers,
      );
  entries = v.entries;
}

pub kept : (r : Option TcpServer) → Keeps r → (after : TcpServer) × (r ≡ some after) × IsValid after
kept none k = absurd k
kept (some after) k = (after, refl, k)

-- `handleProducerBytes` answers, and leaves a valid server.
handle_producer_bytes-IsValid :
    (s : TcpServer) (fd : ℕ) (bytes : List ℕ)
    → CanProduce s fd
    → IsValid s
    → (after : TcpServer) × (ok : Bool) × (handle_producer_bytes s fd bytes ≡ some (after, ok))
      × IsValid after
unfolding handle_producer_bytes
handle_producer_bytes-IsValid s fd bytes can v =
    let (r, e, bounded) = receive-Bounded (recv_buffer_of fd s.producers) bytes in
    by_verdict r e bounded
  where
    by_verdict :
        (r : Received)
        → receive (recv_buffer_of fd s.producers) bytes ≡ some r
        → Bounded r
        → (after : TcpServer) × (ok : Bool) × (handle_producer_bytes s fd bytes ≡ some (after, ok))
          × IsValid after
    by_verdict stop e bounded =
        (keep_bytes s fd [], false, rw (e, handle_producer_bytes), keep_bytes-IsValid s fd [] can v)
    by_verdict (go frames rest) e (sized, _) =
        let (after, e', w) = kept (handle_complete_frames (keep_bytes s fd rest) frames) (
          handle_complete_frames-Keeps frames (keep_bytes s fd rest) sized
            (keep_bytes-IsValid s fd rest can v)) in
        (after, true, rw (e, handle_producer_bytes, e'), w)

pub serve_producer-Keeps :
    (s : TcpServer) (fd : ℕ) (bytes : List ℕ)
    → CanProduce s fd
    → IsValid s
    → Keeps (serve_producer s fd bytes)
unfolding serve_producer
serve_producer-Keeps s fd bytes can v =
    let (after, ok, e, w) = handle_producer_bytes-IsValid s fd bytes can v in
    rw (e, serve_producer) (if-intro IsValid ok (λ t. w) (λ f. remove_viewer-IsValid after fd w))

non_empty-All : (bytes : List ℕ) → All (λ chunk. 0 < length chunk) (non_empty bytes)
non_empty-All [] = tt
non_empty-All (b ∷ bytes) = (omega arith, tt)

length-non_empty : (bytes : List ℕ) → length (non_empty bytes) ≤ 1
length-non_empty [] = omega arith
length-non_empty (b ∷ bytes) = omega arith

http_header_filled : 0 < length http_header
unfolding http_header
http_header_filled = omega arith

pub handle_viewer_request-IsValid :
    (s : TcpServer) (fd : ℕ)
    → contains fd s.producers ≡ false
    → contains fd s.pending_probe ≡ false
    → IsValid s
    → IsValid (handle_viewer_request s fd)
unfolding handle_viewer_request
handle_viewer_request-IsValid s fd nr np v = record {
  roles = λ other.
      ground (arith, v.roles other, contains-insert fd other (first_viewer s fd) s.viewers);
  entries = All-insert Entry fd _ s.viewers v.entries (
    refl,
    record {
      placed = http_header_filled;
      filled = (
        http_header_filled,
        All-append _ (non_empty s.bootstrap_config) _ (non_empty-All s.bootstrap_config)
            (non_empty-All s.bootstrap_frame),
      );
      bounded = omega (
        arith,
        length-append (non_empty s.bootstrap_config) (non_empty s.bootstrap_frame),
        length-non_empty s.bootstrap_config,
        length-non_empty s.bootstrap_frame,
      );
    },
  );
}

-- ===== src/Gateway/Server/Bootstrap.antt =====
-- What a new viewer is given: the caches that the last key frame left.
use edgevision_rv1126b.Prelude.{
  ℕ, ◌<◌, ◌≡◌, refl, ap, ◌∙◌, true, false, List, [], ◌∷◌, ◌++◌, some, arith, length, length-append,
  ==_refl,
}
use edgevision_rv1126b.Prelude.Maps.{lookup, lookup-insert}
use edgevision_rv1126b.AnnexB.Units.{
  NalUnit, serialize, unit_bytes, code_bytes, AllClean, config_units, any_of_type,
}
use edgevision_rv1126b.AnnexB.Access.{
  contains_nal_type-serialize, extract_bootstrap_config-serialize,
}
use edgevision_rv1126b.Gateway.State.{TcpServer}
use edgevision_rv1126b.Gateway.Viewers.{queue_frame_all}
use edgevision_rv1126b.Gateway.Server.{
  first_viewer, remove_viewer, remove_all, is_empty, http_header, non_empty, handle_viewer_request,
  queue_frame_for_viewers, renew_bootstrap, handle_complete_frame,
}

-- The two caches of a server.
abbrev caches : TcpServer → List ℕ × List ℕ
caches s = (s.bootstrap_config, s.bootstrap_frame)

caches-remove_all : (fds : List ℕ) (s : TcpServer) → caches (remove_all s fds) ≡ caches s
unfolding remove_all
caches-remove_all [] s = refl
caches-remove_all (fd ∷ fds) s = caches-remove_all fds (remove_viewer s fd)

caches-queue_frame_for_viewers :
    (s : TcpServer) (frame : List ℕ) → caches (queue_frame_for_viewers s frame) ≡ caches s
unfolding queue_frame_for_viewers
caches-queue_frame_for_viewers s frame =
    caches-remove_all (queue_frame_all frame s.viewers).1
      (record s { viewers = (queue_frame_all frame s.viewers).0 })

serialize-filled :
    (units : List NalUnit) → any_of_type 5 units ≡ true → 0 < length (serialize units)
serialize-filled [] any = cc
serialize-filled (unit ∷ units) any = omega (
  arith,
  length-append (unit_bytes unit) (serialize units),
  length-append (code_bytes unit.long) (unit.header ∷ unit.payload),
)

-- A broadcast access unit in `serialize` form renews the caches by its content.
caches-handle_complete_frame :
    (s : TcpServer) (units : List NalUnit)
    → AllClean units
    → (after : TcpServer) × (handle_complete_frame s (serialize units) ≡ some after)
      × (caches after
          ≡ caches (
              renew_bootstrap s
                (serialize units)
                (serialize (config_units units))
                (any_of_type 5 units)))
unfolding handle_complete_frame
caches-handle_complete_frame s units clean = (
  queue_frame_for_viewers
      (renew_bootstrap s (serialize units) (serialize (config_units units)) (any_of_type 5 units))
      (serialize units),
  rw (extract_bootstrap_config-serialize units clean, contains_nal_type-serialize 5 units clean)
      refl,
  caches-queue_frame_for_viewers _ (serialize units),
)

is_empty_filled : (bytes : List ℕ) → 0 < length bytes → is_empty bytes ≡ false
is_empty_filled [] pos = absurd (omega arith)
is_empty_filled (b ∷ bytes) pos = refl

non_empty_filled : (bytes : List ℕ) → 0 < length bytes → non_empty bytes ≡ bytes ∷ []
non_empty_filled [] pos = absurd (omega arith)
non_empty_filled (b ∷ bytes) pos = refl

-- The queue of a new viewer by the two caches.
first_queue : List ℕ × List ℕ → List (List ℕ)
first_queue (config, frame) = http_header ∷ (non_empty config ++ non_empty frame)

key_frame_caches :
    (s : TcpServer) (units : List NalUnit)
    → any_of_type 5 units ≡ true
    → 0 < length (serialize (config_units units))
    → first_queue (
        caches (
          renew_bootstrap s
            (serialize units)
            (serialize (config_units units))
            (any_of_type 5 units)))
      ≡ http_header ∷ serialize (config_units units) ∷ serialize units ∷ []
unfolding first_queue renew_bootstrap
key_frame_caches s units any pos = rw (
  any,
  is_empty_filled (serialize (config_units units)) pos,
  non_empty_filled (serialize (config_units units)) pos,
  non_empty_filled (serialize units) (serialize-filled units any),
)

-- Once the server has taken a well-formed key frame, that is one with an IDR slice and with parameter
-- sets, whoever joins next gets first the HTTP header, then exactly these parameter sets, then that
-- whole key frame, none of it sent yet.
pub key_frame-first_viewer :
    (s : TcpServer) (units : List NalUnit) (fd : ℕ)
    → AllClean units
    → any_of_type 5 units ≡ true
    → 0 < length (serialize (config_units units))
    → (after : TcpServer) × (handle_complete_frame s (serialize units) ≡ some after)
      × (lookup fd (handle_viewer_request after fd).viewers
          ≡ some (record {
            fd = fd;
            send_queue = http_header ∷ serialize (config_units units) ∷ serialize units ∷ [];
            current_offset = 0;
            active = true;
          }))
unfolding handle_viewer_request first_queue
key_frame-first_viewer s units fd clean any pos =
    let (after, e, c) = caches-handle_complete_frame s units clean in
    let q = ap first_queue c ∙ key_frame_caches s units any pos in
    (
      after,
      e,
      lookup-insert fd fd (first_viewer after fd) after.viewers
          ∙ rw (==_refl fd) (
              ap
                (λ queue.
                  some (record { fd = fd; send_queue = queue; current_offset = 0; active = true }))
                q),
    )

-- ===== src/Gateway/Server/Tests.antt =====
-- The server on small inputs.
use edgevision_rv1126b.Prelude.{
  ℕ, ◌≡◌, ◌≢◌, refl, true, false, List, [], ◌∷◌, ◌++◌, some, arith, if◌then◌else◌,
}
use edgevision_rv1126b.Prelude.Maps.{lookup, contains}
use edgevision_rv1126b.Socket.{Link}
use edgevision_rv1126b.Socket.Samples.{two_bytes, unused}
use edgevision_rv1126b.AnnexB.Units.{NalUnit, serialize, config_units}
use edgevision_rv1126b.Wire.{framed}
use edgevision_rv1126b.Gateway.State.{TcpServer, initial}
use edgevision_rv1126b.Gateway.Server.{
  ◌>>=◌, remove_viewer, http_header, is_get, on_bytes, handle_complete_frame, handle_viewer_request,
  sender_round, Event, on_event,
}
use edgevision_rv1126b.Gateway.Server.Removal.{is_known, Untouched, remove_viewer-Untouched}
use edgevision_rv1126b.Gateway.Server.Invariant.{IsValid}
use edgevision_rv1126b.Gateway.Server.Events.{IsPossible}
use edgevision_rv1126b.Gateway.Server.Reachable.{Reachable, started, Reachable-IsValid}
use edgevision_rv1126b.Gateway.Server.Probe.{is_get-framed, on_bytes-append}
use edgevision_rv1126b.Gateway.Server.Bootstrap.{key_frame-first_viewer}

-- Descriptor 7 waits for its first bytes.
abbrev connecting : TcpServer
connecting = record initial { pending_probe = (7, []) ∷ [] }

remove_viewer-Untouched_example :
    (is_known (remove_viewer connecting 7) 7 ≡ false)
    × ((other : ℕ) → 7 ≢ other → Untouched connecting (remove_viewer connecting 7) other)
    × ((remove_viewer connecting 7).bootstrap_config ≡ [])
    × ((remove_viewer connecting 7).bootstrap_frame ≡ [])
    × ((remove_viewer connecting 7).closed ≡ (if is_known connecting 7 then 7 ∷ [] else []))
    × (remove_viewer (remove_viewer connecting 7) 7 ≡ remove_viewer connecting 7)
remove_viewer-Untouched_example = remove_viewer-Untouched connecting 7

Reachable-IsValid_example :
    IsValid initial
    × ((e : Event)
        → IsPossible initial e
        → (after : TcpServer) × (on_event initial e ≡ some after)
          × Reachable (λ fd. two_bytes) after (λ fd. unused))
    × ((after : TcpServer) × (links' : ℕ → Link) × (sender_round
            (λ fd. two_bytes)
            initial
            (λ fd. unused)
          ≡ some (after, links'))
        × Reachable (λ fd. two_bytes) after links')
Reachable-IsValid_example = Reachable-IsValid (λ fd. two_bytes) initial (λ fd. unused) started

is_get-framed_example : is_get (framed (101 ∷ 102 ∷ []) ++ 71 ∷ []) ≡ false
is_get-framed_example = is_get-framed (101 ∷ 102 ∷ []) (71 ∷ []) (omega arith)

-- "GE", then "T /".
on_bytes-append_example :
    (on_bytes connecting 7 (71 ∷ 69 ∷ []) >>= λ after. on_bytes after 7 (84 ∷ 32 ∷ 47 ∷ []))
    ≡ on_bytes connecting 7 (71 ∷ 69 ∷ 84 ∷ 32 ∷ 47 ∷ [])
unfolding contains lookup
on_bytes-append_example =
    on_bytes-append connecting 7 (71 ∷ 69 ∷ []) (84 ∷ 32 ∷ 47 ∷ []) refl refl (omega arith)

abbrev key_frame : List NalUnit
key_frame =
    record { long = true; header = 0x67; payload = 66 ∷ [] }
    ∷ record { long = true; header = 0x65; payload = 136 ∷ [] }
    ∷ []

key_frame-first_viewer_example :
    (after : TcpServer) × (handle_complete_frame connecting (serialize key_frame) ≡ some after)
    × (lookup 7 (handle_viewer_request after 7).viewers
        ≡ some (record {
          fd = 7;
          send_queue = http_header ∷ serialize (config_units key_frame) ∷ serialize key_frame ∷ [];
          current_offset = 0;
          active = true;
        }))
key_frame-first_viewer_example =
    key_frame-first_viewer connecting key_frame 7 (omega arith) refl (omega arith)

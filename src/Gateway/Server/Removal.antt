-- ===== src/Gateway/Server/Removal.antt =====
-- `removeViewer`, which takes a descriptor out of the three maps.
use edgevision_rv1126b.Prelude.{
  ℕ, ◌≡◌, ◌≢◌, refl, Bool, false, ◌||◌, ◌∷◌, arith, if◌then◌else◌, ==_refl,
}
use edgevision_rv1126b.Prelude.Maps.{
  Map, lookup, contains, erase, contains-erase, lookup-erase, erase_absent,
}
use edgevision_rv1126b.Gateway.State.{TcpServer}
use edgevision_rv1126b.Gateway.Server.{remove_viewer}

-- The descriptor has a role in the server.
abbrev pub is_known : TcpServer → ℕ → Bool
is_known s fd = contains fd s.viewers || (contains fd s.producers || contains fd s.pending_probe)

-- What stays of `other` when `fd` is removed.
abbrev pub Untouched : TcpServer → TcpServer → ℕ → Type 0
Untouched s after other =
    (lookup other after.viewers ≡ lookup other s.viewers)
    × (lookup other after.producers ≡ lookup other s.producers)
    × (lookup other after.pending_probe ≡ lookup other s.pending_probe)

module _ {ℓ} {V : Type ℓ} where
  gone : (fd : ℕ) (m : Map V) → contains fd (erase fd m) ≡ false
  gone fd m = rw (contains-erase fd fd m, ==_refl fd)

  lookup-erase_ne :
      (fd other : ℕ) (m : Map V) → fd ≢ other → lookup other (erase fd m) ≡ lookup other m
  lookup-erase_ne fd other m ne = ground (arith, lookup-erase fd other m)

  erase-erase : (fd : ℕ) (m : Map V) → erase fd (erase fd m) ≡ erase fd m
  erase-erase fd m = erase_absent fd (erase fd m) (gone fd m)

-- After `removeViewer(fd)` the server does not know `fd` in any role, every other descriptor keeps
-- its entry, the two caches stay, and `fd` is closed once if the server knew it and not at all
-- otherwise; so a second call changes nothing.
pub remove_viewer-Untouched :
    (s : TcpServer) (fd : ℕ)
    → let after = remove_viewer s fd in
      (is_known after fd ≡ false)
      × ((other : ℕ) → fd ≢ other → Untouched s after other)
      × (after.bootstrap_config ≡ s.bootstrap_config)
      × (after.bootstrap_frame ≡ s.bootstrap_frame)
      × (after.closed ≡ (if is_known s fd then fd ∷ s.closed else s.closed))
      × (remove_viewer after fd ≡ after)
unfolding remove_viewer
remove_viewer-Untouched s fd = (
  rw (gone fd s.viewers, gone fd s.producers, gone fd s.pending_probe),
  λ other ne. (
    lookup-erase_ne fd other s.viewers ne,
    lookup-erase_ne fd other s.producers ne,
    lookup-erase_ne fd other s.pending_probe ne,
  ),
  refl,
  refl,
  refl,
  rw (
    gone fd s.viewers,
    gone fd s.producers,
    gone fd s.pending_probe,
    erase-erase fd s.viewers,
    erase-erase fd s.producers,
    erase-erase fd s.pending_probe,
  ),
)

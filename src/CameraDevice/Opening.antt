-- ===== src/CameraDevice/Opening.antt =====
-- `initCamera`: the buffers that are mapped and given to the driver, or the call that fails.
use native.Mathlib.Nat.{add-zero}
use edgevision_rv1126b.Prelude.{
  ℕ, zero, suc, ◌+◌, ◌≤◌, ◌<◌, ◌≡◌, ◌⊎◌, inl, inr, refl, sym, ap, ◌∙◌, ◌>>=◌, List, ◌∷◌, Option,
  none, some, true, false, arith, length, get_elem?, Option-cases, Bool-cases,
}
use edgevision_rv1126b.CameraDevice.{
  CameraDevice, Driver, Format, map_one, map_buffers, use_format, init_camera, derive_vir_height,
}

-- Buffer `i` is known with its length, mapped and queued.
pub record Usable (driver : Driver) (i size : ℕ) : Type 0 where
  pub queried : driver.query_buffer i ≡ some size
  pub mapped : driver.map_buffer i ≡ true
  pub queued : driver.queue_buffer i ≡ true

-- One of the three calls for buffer `i` fails.
pub data Broken (driver : Driver) (i : ℕ) : Type 0 where
  no_length : driver.query_buffer i ≡ none → Broken driver i
  not_mapped : driver.map_buffer i ≡ false → Broken driver i
  not_queued : driver.queue_buffer i ≡ false → Broken driver i

abbrev OneMapped : Driver → ℕ → Option ℕ → Type 0
OneMapped driver i none = Broken driver i
OneMapped driver i (some size) = Usable driver i size

map_one-OneMapped : (driver : Driver) (i : ℕ) → OneMapped driver i (map_one driver i)
unfolding map_one
map_one-OneMapped driver i = elim (Option-cases (driver.query_buffer i)) [
  | inl unknown ↦ rw unknown (no_length unknown)
  | inr (size, known) ↦ elim (Bool-cases (driver.map_buffer i)) [
    | inr unmapped ↦ rw (known, unmapped) (not_mapped unmapped)
    | inl mapped ↦ elim (Bool-cases (driver.queue_buffer i)) [
      | inr refused ↦ rw (known, mapped, refused) (not_queued refused)
      | inl queued ↦
          rw (known, mapped, queued) (record { queried = known; mapped = mapped; queued = queued })
    ]
  ]
]

-- The buffers of the loop, `n` of them from `i` on.
abbrev AllMapped : Driver → ℕ → ℕ → Option (List ℕ) → Type 0
AllMapped driver n i none = (k : ℕ) × (i ≤ k) × (k < i + n) × Broken driver k
AllMapped driver n i (some sizes) =
    (length sizes ≡ n) × ((k size : ℕ) → get_elem? sizes k ≡ some size → Usable driver (i + k) size)

AllMapped-step :
    (driver : Driver) (n i : ℕ) (one : Option ℕ) (rest : Option (List ℕ))
    → map_one driver i ≡ one
    → map_buffers driver n (i + 1) ≡ rest
    → OneMapped driver i one
    → AllMapped driver n (i + 1) rest
    → AllMapped driver (suc n) i (map_buffers driver (suc n) i)
unfolding map_buffers
AllMapped-step driver n i none rest e f broken h = rw e (i, omega arith, omega arith, broken)
AllMapped-step driver n i (some size) none e f usable (k, lo, hi, broken) =
    rw (e, f) (k, omega arith, omega arith, broken)
AllMapped-step driver n i (some size) (some sizes) e f usable (count, all) =
    rw (e, f) (omega (arith, count), each)
  where
    each : (k known : ℕ) → get_elem? (size ∷ sizes) k ≡ some known → Usable driver (i + k) known
    each zero known found = let same : size ≡ known = cc in rw (add-zero i, ← same) usable
    each (suc k) known found =
        let e : i + suc k ≡ i + 1 + k = omega arith in rw e (all k known found)

map_buffers-AllMapped : (driver : Driver) (n i : ℕ) → AllMapped driver n i (map_buffers driver n i)
unfolding map_buffers
map_buffers-AllMapped driver zero i = (refl, λ k size found. cc)
map_buffers-AllMapped driver (suc n) i =
    AllMapped-step driver n i (map_one driver i) (map_buffers driver n (i + 1)) refl refl
      (map_one-OneMapped driver i) (map_buffers-AllMapped driver n (i + 1))

-- The camera that `initCamera` leaves: the size of the settled format, a row that holds the width where
-- the driver's does or gives none, and one usable buffer for each that was granted.
pub record Opened (camera : CameraDevice) (driver : Driver) (after : CameraDevice) : Type 0 where
  pub format : Format
  pub settled : driver.set_format ≡ some format
  pub same_width : after.width ≡ format.width
  pub same_height : after.height ≡ format.height
  pub wide :
      format.bytes_per_line ≡ 0 ⊎ format.width ≤ format.bytes_per_line
      → after.width ≤ after.bytes_per_line
  pub tall : after.height ≤ after.source_vir_height
  pub same_fd : after.fd ≡ camera.fd
  pub granted : driver.request_buffers ≡ some (length after.buffers)
  pub usable : (k size : ℕ) → get_elem? after.buffers k ≡ some size → Usable driver k size

-- Why `initCamera` ends the process.
pub data Unusable (driver : Driver) : Type 0 where
  no_format : driver.set_format ≡ none → Unusable driver
  no_buffers : driver.request_buffers ≡ none → Unusable driver
  broken :
      (count k : ℕ)
      → driver.request_buffers ≡ some count
      → k < count
      → Broken driver k
      → Unusable driver

abbrev pub Initialized : CameraDevice → Driver → Option CameraDevice → Type 0
Initialized camera driver none = Unusable driver
Initialized camera driver (some after) = Opened camera driver after

module _ (camera : CameraDevice) (driver : Driver) where
  init_camera_unsettled : driver.set_format ≡ none → init_camera camera driver ≡ none
  unfolding init_camera
  init_camera_unsettled e = rw e

  module _ (format : Format) (settled : driver.set_format ≡ some format) where
    init_camera_refused : driver.request_buffers ≡ none → init_camera camera driver ≡ none
    unfolding init_camera
    init_camera_refused f = rw (settled, f)

    module _ (count : ℕ) (granted : driver.request_buffers ≡ some count) where
      init_camera_mapped : init_camera camera driver ≡ (
          map_buffers driver count 0 >>= λ sizes.
          some (record (use_format camera format) { buffers = sizes }))
      unfolding init_camera
      init_camera_mapped = rw (settled, granted)

      Initialized-mapped :
          (mapped : Option (List ℕ))
          → AllMapped driver count 0 mapped
          → Initialized camera driver
              (mapped >>= λ sizes. some (record (use_format camera format) { buffers = sizes }))
      unfolding use_format derive_vir_height
      Initialized-mapped none (k, lo, hi, b) = broken count k granted (omega arith) b
      Initialized-mapped (some sizes) (counted, all) = record {
        format = format;
        settled = settled;
        same_width = refl;
        same_height = refl;
        wide = λ h. ground arith;
        tall = ground arith;
        same_fd = refl;
        granted = granted ∙ ap some (sym counted);
        usable = λ k size found. let e : 0 + k ≡ k = omega arith in rw (← e) (all k size found);
      }

-- `initCamera` returns exactly when the format is settled, buffers are granted and each of them is
-- queried, mapped and queued with success; then the camera has the size of the format, each buffer with
-- the length that the driver reports, and no fewer padded rows than rows. It ends the process else.
pub init_camera-Initialized :
    (camera : CameraDevice) (driver : Driver)
    → Initialized camera driver (init_camera camera driver)
init_camera-Initialized camera driver = elim (Option-cases driver.set_format) [
  | inl unsettled ↦ rw (init_camera_unsettled camera driver unsettled) (no_format unsettled)
  | inr (format, settled) ↦ elim (Option-cases driver.request_buffers) [
    | inl refused ↦
        rw (init_camera_refused camera driver format settled refused) (no_buffers refused)
    | inr (count, granted) ↦ rw (init_camera_mapped camera driver format settled count granted) (
        Initialized-mapped camera driver format settled count granted (map_buffers driver count 0)
          (map_buffers-AllMapped driver count 0))
  ]
]

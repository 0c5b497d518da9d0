-- ===== src/AnnexB/Access.antt =====
-- The two scans on a whole access unit.
use edgevision_rv1126b.Prelude.{
  ℕ, zero, suc, ◌+◌, ◌≤◌, ◌<◌, ◌≡◌, refl, ap, Bool, true, false, ◌||◌, ◌&&◌, List, [], ◌∷◌, ◌++◌,
  some, arith, if◌then◌else◌, ◌==◌, length, append-nil, append_assoc, length-append, Bool-cases,
  lt→ltb, lt→leb_false, inl, inr,
}
use edgevision_rv1126b.AnnexB.{
  contains_from, contains_nal_type, is_config, extract_from, extract_bootstrap_config,
}
use edgevision_rv1126b.AnnexB.Units.{
  Ahead, Ahead-drop, Ahead-find, AllClean, NalUnit, any_of_type, code_len, config_units,
  length-unit_bytes, serialize, unit-Ahead, unit-slice, unit_bytes, unit_header, unit_inside,
  unit_type,
}

if-some-or :
    (test rest : Bool) → (if true && test then some true else some rest) ≡ some (test || rest)
if-some-or true rest = refl
if-some-or false rest = refl

contains_from-units :
    (fuel : ℕ) (bytes : List ℕ) (nal_type offset : ℕ) (payload : List ℕ) (units : List NalUnit)
    → length units < fuel
    → Ahead bytes offset payload units
    → contains_from fuel bytes nal_type offset ≡ some (any_of_type nal_type units)
unfolding contains_from
contains_from-units zero bytes nal_type offset payload units lt a = absurd (omega arith)
contains_from-units (suc fuel) bytes nal_type offset payload [] lt a =
    rw (Ahead-find a, contains_from)
contains_from-units (suc fuel) bytes nal_type offset payload (u ∷ units) lt a =
    let at = Ahead-drop a in
    let first : ℕ = offset + length payload in
    let ih =
      contains_from-units fuel bytes nal_type (first + code_len u + 1) u.payload units (omega arith)
        (unit-Ahead bytes first u units at a.all_clean.0 a.all_clean.1) in
    rw
      (
        Ahead-find a,
        contains_from,
        lt→ltb _ _ (unit_inside bytes first u units at),
        unit_header bytes first u units at,
        ih,
      )
      (if-some-or (unit_type u == nal_type) (any_of_type nal_type units))

-- `config` with the units kept from `u ∷ units` behind it.
config-append :
    (config : List ℕ) (u : NalUnit) (units : List NalUnit)
    → (if is_config (unit_type u) then config ++ unit_bytes u else config)
        ++ serialize (config_units units)
      ≡ config ++ serialize (config_units (u ∷ units))
config-append config u units = elim (Bool-cases (is_config (unit_type u))) [
  | inl e ↦ rw e (append_assoc config (unit_bytes u) (serialize (config_units units)))
  | inr e ↦ rw e
]

extract_from-units :
    (fuel : ℕ) (bytes : List ℕ) (offset : ℕ) (config payload : List ℕ) (units : List NalUnit)
    → length units < fuel
    → Ahead bytes offset payload units
    → extract_from fuel bytes offset config ≡ some (config ++ serialize (config_units units))
unfolding extract_from
extract_from-units zero bytes offset config payload units lt a = absurd (omega arith)
extract_from-units (suc fuel) bytes offset config payload [] lt a =
    rw (Ahead-find a, extract_from) (rw (append-nil config))
extract_from-units (suc fuel) bytes offset config payload (u ∷ units) lt a =
    let at = Ahead-drop a in
    let first : ℕ = offset + length payload in
    let more : List ℕ = if is_config (unit_type u) then config ++ unit_bytes u else config in
    let ih =
      extract_from-units fuel bytes (first + code_len u + 1) more u.payload units (omega arith)
        (unit-Ahead bytes first u units at a.all_clean.0 a.all_clean.1) in
    rw
      (
        Ahead-find a,
        extract_from,
        unit_header bytes first u units at,
        unit-slice bytes first u units at a.all_clean.0 a.all_clean.1,
        lt→leb_false _ _ (unit_inside bytes first u units at),
        ih,
      )
      (ap some (config-append config u units))

length-serialize : (units : List NalUnit) → length units ≤ length (serialize units)
length-serialize [] = omega arith
length-serialize (u ∷ units) = omega (
  arith,
  length-serialize units,
  length-append (unit_bytes u) (serialize units),
  length-unit_bytes u,
)

whole-Ahead : (units : List NalUnit) → AllClean units → Ahead (serialize units) 0 [] units
whole-Ahead units cs = record { clean = tt; all_clean = cs; here = refl }

-- On a well-formed access unit `containsNalType` answers whether one of its NAL units has the type.
pub contains_nal_type-serialize :
    (nal_type : ℕ) (units : List NalUnit)
    → AllClean units
    → contains_nal_type (serialize units) nal_type ≡ some (any_of_type nal_type units)
unfolding contains_nal_type
contains_nal_type-serialize nal_type units cs =
    contains_from-units _ (serialize units) nal_type 0 [] units
      (omega (arith, length-serialize units)) (whole-Ahead units cs)

-- On a well-formed access unit `extractBootstrapConfig` returns the SPS, PPS and SEI units, whole,
-- with their start codes and in their order, and nothing else.
pub extract_bootstrap_config-serialize :
    (units : List NalUnit)
    → AllClean units
    → extract_bootstrap_config (serialize units) ≡ some (serialize (config_units units))
unfolding extract_bootstrap_config
extract_bootstrap_config-serialize units cs =
    extract_from-units _ (serialize units) 0 [] [] units (omega (arith, length-serialize units))
      (whole-Ahead units cs)

-- ===== src/AnnexB/Tests.antt =====
-- The Annex B scanner on small inputs.
use edgevision_rv1126b.Prelude.{◌≡◌, refl, true, false, List, [], ◌∷◌, some, arith}
use edgevision_rv1126b.AnnexB.{
  scan, find_start_code, contains_from, contains_nal_type, unit_end, extract_from,
  extract_bootstrap_config,
}
use edgevision_rv1126b.AnnexB.Units.{NalUnit, serialize, AllClean, config_units, any_of_type}
use edgevision_rv1126b.AnnexB.Access.{
  contains_nal_type-serialize, extract_bootstrap_config-serialize,
}
use Prim.Native.Nat.{ℕ}

-- An SPS, a PPS behind a short start code, and an IDR slice.
abbrev key_frame : List NalUnit
key_frame =
    record { long = true; header = 0x67; payload = 66 ∷ 0 ∷ 31 ∷ [] }
    ∷ record { long = false; header = 0x68; payload = 206 ∷ [] }
    ∷ record { long = true; header = 0x65; payload = 0 ∷ 0 ∷ 3 ∷ 1 ∷ 128 ∷ [] }
    ∷ []

abbrev key_frame_config : List ℕ
key_frame_config = 0 ∷ 0 ∷ 0 ∷ 1 ∷ 0x67 ∷ 66 ∷ 0 ∷ 31 ∷ 0 ∷ 0 ∷ 1 ∷ 0x68 ∷ 206 ∷ []

extract_key_frame : extract_bootstrap_config (serialize key_frame) ≡ some key_frame_config
unfolding extract_bootstrap_config extract_from unit_end find_start_code scan
extract_key_frame = refl

-- A start code that directly follows a header byte of zero is passed over.
unit_behind_zero_header : contains_nal_type (0 ∷ 0 ∷ 1 ∷ 0 ∷ 0 ∷ 1 ∷ 0x65 ∷ 7 ∷ []) 5 ≡ some false
unfolding contains_nal_type contains_from find_start_code scan
unit_behind_zero_header = refl

key_frame-AllClean : AllClean key_frame
key_frame-AllClean = omega arith

contains_nal_type-serialize_example :
    contains_nal_type (serialize key_frame) 5 ≡ some (any_of_type 5 key_frame)
contains_nal_type-serialize_example = contains_nal_type-serialize 5 key_frame key_frame-AllClean

extract_bootstrap_config-serialize_example :
    extract_bootstrap_config (serialize key_frame) ≡ some (serialize (config_units key_frame))
extract_bootstrap_config-serialize_example =
    extract_bootstrap_config-serialize key_frame key_frame-AllClean

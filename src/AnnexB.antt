-- ===== src/AnnexB.antt =====
-- The Annex B scanner at the top of camera_gateway/src/TcpServer.cpp: start codes, NAL unit types and
-- the parameter sets of an H.264 access unit. A byte is a number below 256; `data[i]` is read by
-- `get_or`, behind the bounds test that the code makes.
pub mod Scan
pub mod Units
pub mod Access
mod Tests
use edgevision_rv1126b.Prelude.{
  ℕ, zero, suc, ◌+◌, ◌-◌, ◌%◌, Bool, true, false, ◌&&◌, ◌||◌, List, [], ◌∷◌, ◌++◌, Option, none,
  some, ltb, leb, ◌==◌, if◌then◌else◌, length, get_or, take, drop,
}

-- A start code: where it begins, and its length, 3 or 4.
pub record StartCode : Type 0 where
  pub start : ℕ
  pub prefix_len : ℕ

-- The loop of `findStartCode` on the bytes from position `i` on: `i + 3 < data.size()` says that
-- four of them are left.
unfoldable pub scan : ℕ → List ℕ → Option StartCode
scan i (a ∷ b ∷ c ∷ d ∷ rest) =
    let further = scan (i + 1) (b ∷ c ∷ d ∷ rest) in
    if a == 0 && b == 0
    then (if c == 1
        then some (record { start = i; prefix_len = 3 })
        else if c == 0 && d == 1
        then some (record { start = i; prefix_len = 4 })
        else further)
    else further
scan i _ = none

-- `none` is `std::string::npos`.
unfoldable pub find_start_code : List ℕ → ℕ → Option StartCode
find_start_code bytes from = scan from (drop from bytes)

abbrev pub nal_index : StartCode → ℕ
nal_index code = code.start + code.prefix_len

-- `b & 0x1F`.
abbrev pub nal_type_of : ℕ → ℕ
nal_type_of b = b % 32

-- The loop of `containsNalType`; each round takes one fuel, and `none` says that it ran out.
unfoldable pub contains_from : ℕ → List ℕ → ℕ → ℕ → Option Bool
contains_from zero bytes nal_type offset = none
contains_from (suc fuel) bytes nal_type offset = elim (find_start_code bytes offset) [
  | none ↦ some false
  | some code ↦
      let further = contains_from fuel bytes nal_type (nal_index code + 1) in
      if ltb (nal_index code) (length bytes)
        && (nal_type_of (get_or bytes (nal_index code) 0) == nal_type)
      then some true
      else further
]

-- The offset grows in each round and stays within the data.
unfoldable pub contains_nal_type : List ℕ → ℕ → Option Bool
contains_nal_type bytes nal_type = contains_from (length bytes + 1) bytes nal_type 0

-- SPS, PPS and SEI.
abbrev pub is_config : ℕ → Bool
is_config nal_type = nal_type == 7 || (nal_type == 8 || nal_type == 6)

-- `nal_end`: where the next start code begins, or the end of the data.
unfoldable pub unit_end : List ℕ → ℕ → ℕ
unit_end bytes from = elim (find_start_code bytes from) [
  | none ↦ length bytes
  | some next ↦ next.start
]

-- The bytes from `first` up to `last`.
abbrev pub slice : List ℕ → ℕ → ℕ → List ℕ
slice bytes first last = take (last - first) (drop first bytes)

-- The loop of `extractBootstrapConfig`.
unfoldable pub extract_from : ℕ → List ℕ → ℕ → List ℕ → Option (List ℕ)
extract_from zero bytes offset config = none
extract_from (suc fuel) bytes offset config = elim (find_start_code bytes offset) [
  | none ↦ some config
  | some code ↦
      let further = extract_from fuel bytes (nal_index code + 1) (
        if is_config (nal_type_of (get_or bytes (nal_index code) 0))
        then config ++ slice bytes code.start (unit_end bytes (nal_index code + 1))
        else config) in
      if leb (length bytes) (nal_index code) then some config else further
]

unfoldable pub extract_bootstrap_config : List ℕ → Option (List ℕ)
extract_bootstrap_config bytes = extract_from (length bytes + 1) bytes 0 []

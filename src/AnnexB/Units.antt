-- ===== src/AnnexB/Units.antt =====
-- The scanner on a well-formed access unit: a sequence of NAL units, each behind its start code. The
-- encoder keeps start codes out of the payloads (the emulation prevention of H.264) and ends each
-- payload with a byte that is not zero.
use edgevision_rv1126b.Prelude.{
  ℕ, ◌+◌, ◌-◌, ◌<◌, ◌≡◌, ◌≢◌, refl, ap, ◌∙◌, Bool, true, false, ◌||◌, List, [], ◌∷◌, ◌++◌, Option,
  none, some, arith, if◌then◌else◌, ◌==◌, length, get_or, drop, All, length-append, length-drop,
  drop-add, get_or-drop, drop-append_left, take-append_left,
}
use edgevision_rv1126b.AnnexB.{
  StartCode, scan, find_start_code, nal_type_of, is_config, unit_end, slice,
}

pub record NalUnit : Type 0 where
  -- Whether the start code has the fourth byte.
  pub long : Bool
  pub header : ℕ
  pub payload : List ℕ

abbrev pub code_bytes : Bool → List ℕ
code_bytes true = 0 ∷ 0 ∷ 0 ∷ 1 ∷ []
code_bytes false = 0 ∷ 0 ∷ 1 ∷ []

abbrev pub unit_bytes : NalUnit → List ℕ
unit_bytes u = code_bytes u.long ++ (u.header ∷ u.payload)

-- The access unit as the encoder emits it.
abbrev pub serialize : List NalUnit → List ℕ
serialize [] = []
serialize (u ∷ units) = unit_bytes u ++ serialize units

abbrev pub unit_type : NalUnit → ℕ
unit_type u = nal_type_of u.header

-- Nothing in the payload reads as the beginning of a start code.
abbrev pub IsClean : List ℕ → Type 0
IsClean [] = Unit {0}
IsClean (x ∷ []) = x ≢ 0
IsClean (x ∷ y ∷ []) = y ≢ 0
IsClean (x ∷ y ∷ z ∷ rest) = (x ≡ 0 → y ≡ 0 → 1 < z) × IsClean (y ∷ z ∷ rest)

abbrev pub AllClean : List NalUnit → Type 0
AllClean = All (λ u. IsClean u.payload)

abbrev pub any_of_type : ℕ → List NalUnit → Bool
any_of_type nal_type [] = false
any_of_type nal_type (u ∷ units) = (unit_type u == nal_type) || any_of_type nal_type units

-- The parameter sets and SEI units, in their order.
abbrev pub config_units : List NalUnit → List NalUnit
config_units [] = []
config_units (u ∷ units) =
    let rest = config_units units in if is_config (unit_type u) then u ∷ rest else rest

abbrev pub code_len : NalUnit → ℕ
code_len u = if u.long then 4 else 3

-- The scan from inside a payload, `i` the position of its first byte there.
abbrev next_code : ℕ → List NalUnit → Option StartCode
next_code i [] = none
next_code i (u ∷ units) = some (record { start = i; prefix_len = code_len u })

scan-serialize : (i : ℕ) (units : List NalUnit) → scan i (serialize units) ≡ next_code i units
unfolding scan
scan-serialize i [] = refl
scan-serialize i (u ∷ units) = ground arith

-- A byte that begins no start code is passed over.
scan_skip :
    (i x : ℕ) (xs : List ℕ)
    → ((y z : ℕ) (rest : List ℕ) → xs ≡ y ∷ z ∷ rest → x ≡ 0 → y ≡ 0 → 1 < z)
    → scan i (x ∷ xs) ≡ scan (i + 1) xs
unfolding scan
scan_skip i x (y ∷ z ∷ w ∷ rest) h = ground (arith, h y z (w ∷ rest) refl)
scan_skip i x [] h = refl
scan_skip i x (y ∷ []) h = refl
scan_skip i x (y ∷ z ∷ []) h = refl

scan-append :
    (i : ℕ) (payload : List ℕ) (units : List NalUnit)
    → IsClean payload
    → scan i (payload ++ serialize units) ≡ next_code (i + length payload) units
scan-append i [] units c = scan-serialize i units ∙ ap (λ k. next_code k units) (omega arith)
scan-append i (x ∷ []) units c =
    scan_skip i x (serialize units) (λ y z rest e ex. absurd (c ex)) ∙ scan-serialize (i + 1) units
scan-append i (x ∷ y ∷ []) units c =
    scan_skip i x (y ∷ serialize units) (λ y' z rest e ex ey. absurd (c (ground arith)))
    ∙ scan_skip (i + 1) y (serialize units) (λ y' z rest e ey. absurd (c ey))
    ∙ scan-serialize (i + 1 + 1) units
    ∙ ap (λ k. next_code k units) (omega arith)
scan-append i (x ∷ y ∷ z ∷ rest) units c =
    scan_skip i x (y ∷ z ∷ rest ++ serialize units) (λ y' z' rest' e ex ey. ground (arith, c.0))
    ∙ scan-append (i + 1) (y ∷ z ∷ rest) units c.1
    ∙ ap (λ k. next_code k units) (omega arith)

-- `bytes` holds `payload` from `offset` on, and then the units to its end.
pub record Ahead (bytes : List ℕ) (offset : ℕ) (payload : List ℕ) (units : List NalUnit)
    : Type 0 where
  pub clean : IsClean payload
  pub all_clean : AllClean units
  pub here : drop offset bytes ≡ payload ++ serialize units

module _ {bytes : List ℕ} {offset : ℕ} {payload : List ℕ} where
  pub Ahead-find :
      {units : List NalUnit}
      → Ahead bytes offset payload units
      → find_start_code bytes offset ≡ next_code (offset + length payload) units
  unfolding find_start_code
  Ahead-find {units} a = rw a.here (scan-append offset payload units a.clean)

  -- The next unit, at `first`; its header stands at `first + code_len u`.
  pub Ahead-drop :
      {u : NalUnit} {units : List NalUnit}
      → Ahead bytes offset payload (u ∷ units)
      → drop (offset + length payload) bytes ≡ serialize (u ∷ units)
  Ahead-drop {u} {units} a =
      drop-add offset (length payload) bytes
      ∙ ap (drop (length payload)) a.here
      ∙ drop-append_left payload (serialize (u ∷ units))

unit_end-Ahead :
    (bytes : List ℕ) (offset : ℕ) (payload : List ℕ) (units : List NalUnit)
    → Ahead bytes offset payload units
    → length bytes ≡ offset + length payload + length (serialize units)
    → unit_end bytes offset ≡ offset + length payload
unfolding unit_end
unit_end-Ahead bytes offset payload [] a e = rw (Ahead-find a, unit_end) (omega arith)
unit_end-Ahead bytes offset payload (u ∷ units) a e = rw (Ahead-find a, unit_end)

header_at : (u : NalUnit) (rest : List ℕ) → get_or (unit_bytes u ++ rest) (code_len u) 0 ≡ u.header
header_at u rest = ground arith

payload_at :
    (u : NalUnit) (rest : List ℕ) → drop (code_len u + 1) (unit_bytes u ++ rest) ≡ u.payload ++ rest
payload_at u rest = ground arith

pub length-unit_bytes : (u : NalUnit) → length (unit_bytes u) ≡ code_len u + 1 + length u.payload
length-unit_bytes u = ground arith

-- The unit `u` begins at `first`, and the units that follow it end the data.
module _ (bytes : List ℕ) (first : ℕ) (u : NalUnit) (units : List NalUnit)
    (at : drop first bytes ≡ unit_bytes u ++ serialize units) where
  pub unit_header : get_or bytes (first + code_len u) 0 ≡ u.header
  unit_header =
      get_or-drop first (code_len u) bytes 0
      ∙ ap (λ l. get_or l (code_len u) 0) at
      ∙ header_at u (serialize units)

  unit_rest : drop (first + code_len u + 1) bytes ≡ u.payload ++ serialize units
  unit_rest =
      ap (λ k. drop k bytes) (omega arith)
      ∙ drop-add first (code_len u + 1) bytes
      ∙ ap (drop (code_len u + 1)) at
      ∙ payload_at u (serialize units)

  length_after : length bytes ≡ first + length (unit_bytes u) + length (serialize units)
  length_after = omega (
    arith,
    ap length at,
    length-drop first bytes,
    length-append (unit_bytes u) (serialize units),
    length-unit_bytes u,
  )

  pub unit_inside : first + code_len u < length bytes
  unit_inside = omega (arith, length_after, length-unit_bytes u)

  pub unit-Ahead :
      IsClean u.payload → AllClean units → Ahead bytes (first + code_len u + 1) u.payload units
  unit-Ahead c cs = record { clean = c; all_clean = cs; here = unit_rest }

  pub unit-slice :
      IsClean u.payload
      → AllClean units
      → slice bytes first (unit_end bytes (first + code_len u + 1)) ≡ unit_bytes u
  unit-slice c cs =
      rw
        (
          unit_end-Ahead bytes (first + code_len u + 1) u.payload units (unit-Ahead c cs)
              (omega (arith, length_after, length-unit_bytes u)),
          at,
          unit_size,
        )
        (take-append_left (unit_bytes u) (serialize units))
    where
      unit_size : first + code_len u + 1 + length u.payload - first ≡ length (unit_bytes u)
      unit_size = omega (arith, length-unit_bytes u)

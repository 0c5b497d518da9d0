-- ===== src/Metrics/Proc/Printed.antt =====
-- Decimal numbers, each behind a space, are read back by `>>`.
use edgevision_rv1126b.Prelude.{
  ℕ, zero, suc, ◌+◌, ◌-◌, ◌/◌, ◌%◌, ◌^◌, ◌<◌, ◌≡◌, refl, ap, ◌∙◌, Bool, true, false, ◌||◌, List, [],
  ◌∷◌, ◌++◌, some, arith, ltb, ◌==◌, if◌then◌else◌, length, append_assoc, map, All, lt→ltb,
}
use edgevision_rv1126b.Prelude.Int.{ℤ, pos, negsuc, sub_ℕ}
use edgevision_rv1126b.Detector.Rows.{digits, to_string}
use edgevision_rv1126b.Metrics.Extraction.{
  is_space, is_digit, skip_spaces, read_sign, extract_u64, extract_long, extract_u64s,
  extract_longs,
}
use edgevision_rv1126b.Metrics.Proc.Decimals.{
  Stops, digit_cases, StartsWithDigit, digits-StartsWithDigit, read_magnitude-digits,
}

-- Each number behind a space.
unfoldable pub shown : List ℤ → List ℕ → List ℕ
shown [] tail = tail
shown (z ∷ zs) tail = 32 ∷ (to_string z ++ shown zs tail)

pub shown-Stops : (zs : List ℤ) (tail : List ℕ) → Stops tail → Stops (shown zs tail)
unfolding shown
shown-Stops [] tail stops = stops
shown-Stops (z ∷ zs) tail stops = refl

skip_spaces-char : (c : ℕ) (text : List ℕ) → is_space c ≡ false → skip_spaces (c ∷ text) ≡ c ∷ text
unfolding skip_spaces
skip_spaces-char c text h = rw (h, skip_spaces) refl

read_sign-digit :
    (c : ℕ) (text : List ℕ) → is_digit c ≡ true → read_sign (c ∷ text) ≡ (false, c ∷ text)
unfolding read_sign
read_sign-digit c text h = ground arith

read_sign-minus : (text : List ℕ) → read_sign (45 ∷ text) ≡ (true, text)
unfolding read_sign
read_sign-minus text = refl

-- The sign of a printed number.
abbrev pub is_negative : ℤ → Bool
is_negative (pos n) = false
is_negative (negsuc n) = true

abbrev pub magnitude : ℤ → ℕ
magnitude (pos n) = n
magnitude (negsuc n) = n + 1

printed : ℤ → List ℕ
printed z = digits (magnitude z + 1) (magnitude z)

read_sign-to_string :
    (z : ℤ) (rest : List ℕ)
    → read_sign (skip_spaces (32 ∷ (to_string z ++ rest))) ≡ (is_negative z, printed z ++ rest)
unfolding to_string printed StartsWithDigit skip_spaces
read_sign-to_string (pos n) rest =
    let (c, text, e, digit) = digits-StartsWithDigit (n + 1) n rest (omega arith) in
    let space : is_space c ≡ false = ground arith in
    rw e (ap read_sign (skip_spaces-char c text space) ∙ read_sign-digit c text digit)
read_sign-to_string (negsuc n) rest =
    let same : n + 2 ≡ n + 1 + 1 = omega arith in
    read_sign-minus (digits (n + 2) (n + 1) ++ rest)
    ∙ ap (λ fuel. (true, digits fuel (n + 1) ++ rest)) same

-- What `>>` makes of a printed number.
abbrev pub as_u64 : ℤ → ℕ
as_u64 z = if is_negative z then (2 ^ 64 - magnitude z) % 2 ^ 64 else magnitude z

abbrev pub FitsLong : ℤ → Type 0
FitsLong (pos n) = n < 2 ^ 63
FitsLong (negsuc n) = n < 2 ^ 63

pub extract_u64-to_string :
    (z : ℤ) (rest : List ℕ)
    → magnitude z < 2 ^ 64
    → Stops rest
    → extract_u64 (32 ∷ (to_string z ++ rest)) ≡ some (as_u64 z, rest)
unfolding extract_u64 printed
extract_u64-to_string z rest h stops =
    rw
      (
        read_sign-to_string z rest,
        read_magnitude-digits (magnitude z + 1) (magnitude z) rest (omega arith) stops,
        lt→ltb (magnitude z) (2 ^ 64) h,
      )
      refl

pub extract_long-to_string :
    (z : ℤ) (rest : List ℕ)
    → FitsLong z
    → Stops rest
    → extract_long (32 ∷ (to_string z ++ rest)) ≡ some (z, rest)
unfolding extract_long printed
extract_long-to_string (pos n) rest h stops =
    rw
      (
        read_sign-to_string (pos n) rest,
        read_magnitude-digits (n + 1) n rest (omega arith) stops,
        lt→ltb n (2 ^ 63) h,
      )
      refl
extract_long-to_string (negsuc n) rest h stops =
    let in_range : (ltb (n + 1) (2 ^ 63) || (n + 1 == 2 ^ 63)) ≡ true = ground arith in
    let negated : sub_ℕ 0 (n + 1) ≡ negsuc n = ground arith in
    rw
      (
        read_sign-to_string (negsuc n) rest,
        read_magnitude-digits (n + 1 + 1) (n + 1) rest (omega arith) stops,
        in_range,
      )
      (ap (λ z. some (z, rest)) negated)

-- Numbers in turn.
pub extract_u64s-shown :
    (zs : List ℤ) (tail : List ℕ)
    → All (λ z. magnitude z < 2 ^ 64) zs
    → Stops tail
    → extract_u64s (length zs) (shown zs tail) ≡ some (map as_u64 zs, tail)
unfolding extract_u64s shown
extract_u64s-shown [] tail h stops = refl
extract_u64s-shown (z ∷ zs) tail (h, hs) stops =
    rw
      (
        extract_u64-to_string z (shown zs tail) h (shown-Stops zs tail stops),
        extract_u64s-shown zs tail hs stops,
      )
      refl

pub extract_longs-shown :
    (zs : List ℤ) (tail : List ℕ)
    → All FitsLong zs
    → Stops tail
    → extract_longs (length zs) (shown zs tail) ≡ some (zs, tail)
unfolding extract_longs shown
extract_longs-shown [] tail h stops = refl
extract_longs-shown (z ∷ zs) tail (h, hs) stops =
    rw
      (
        extract_long-to_string z (shown zs tail) h (shown-Stops zs tail stops),
        extract_longs-shown zs tail hs stops,
      )
      refl

-- A printed number has no closing parenthesis.
abbrev pub NoParen : List ℕ → Type 0
NoParen = All (λ c. (c == 41) ≡ false)

digits-NoParen : (fuel n : ℕ) (rest : List ℕ) → NoParen rest → NoParen (digits fuel n ++ rest)
unfolding digits
digits-NoParen zero n rest h = h
digits-NoParen (suc fuel) n rest h =
    digit_cases (λ text. NoParen (text ++ rest)) fuel n (λ one. (ground arith, h))
      (λ more.
        rw (append_assoc (digits fuel (n / 10)) ((48 + n % 10) ∷ []) rest)
          (digits-NoParen fuel (n / 10) ((48 + n % 10) ∷ rest) (ground arith, h)))

to_string-NoParen : (z : ℤ) (rest : List ℕ) → NoParen rest → NoParen (to_string z ++ rest)
unfolding to_string
to_string-NoParen (pos n) rest h = digits-NoParen (n + 1) n rest h
to_string-NoParen (negsuc n) rest h = (refl, digits-NoParen (n + 2) (n + 1) rest h)

pub shown-NoParen : (zs : List ℤ) (tail : List ℕ) → NoParen tail → NoParen (shown zs tail)
unfolding shown
shown-NoParen [] tail h = h
shown-NoParen (z ∷ zs) tail h =
    (refl, to_string-NoParen z (shown zs tail) (shown-NoParen zs tail h))

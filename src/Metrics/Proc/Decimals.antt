-- ===== src/Metrics/Proc/Decimals.antt =====
-- The decimal digits of a number are read back.
use edgevision_rv1126b.Prelude.{
  ℕ, zero, suc, ◌+◌, ◌-◌, ◌*◌, ◌/◌, ◌%◌, ◌<◌, ◌≡◌, refl, ap, ◌∙◌, true, false, List, [], ◌∷◌, ◌++◌,
  some, arith, ltb, append_assoc, if-intro,
}
use edgevision_rv1126b.Detector.Rows.{digits}
use edgevision_rv1126b.Metrics.Extraction.{is_digit, read_digits, starts_with_digit, read_magnitude}

-- The text goes on with something that is no digit.
abbrev pub Stops : List ℕ → Type 0
Stops [] = Unit
Stops (c ∷ text) = is_digit c ≡ false

pub digit_cases :
    (P : List ℕ → Type 0) (fuel n : ℕ)
    → (ltb n 10 ≡ true → P ((48 + n) ∷ []))
    → (ltb n 10 ≡ false → P (digits fuel (n / 10) ++ (48 + n % 10) ∷ []))
    → P (digits (suc fuel) n)
unfolding digits
digit_cases P fuel n one more = if-intro P (ltb n 10) one more

read_digits-cons :
    (value c : ℕ) (text : List ℕ)
    → is_digit c ≡ true
    → read_digits value (c ∷ text) ≡ read_digits (value * 10 + (c - 48)) text
unfolding read_digits
read_digits-cons value c text h = rw (h, read_digits) refl

last_digit :
    (front last n : ℕ) (rest : List ℕ)
    → last < 10
    → front * 10 + last ≡ n
    → read_digits front ((48 + last) ∷ rest) ≡ read_digits n rest
last_digit front last n rest h e =
    let digit : is_digit (48 + last) ≡ true = ground arith in
    let same : front * 10 + (48 + last - 48) ≡ n = omega arith in
    read_digits-cons front (48 + last) rest digit ∙ ap (λ v. read_digits v rest) same

read_digits-digits :
    (fuel n : ℕ) (rest : List ℕ)
    → n < fuel
    → read_digits 0 (digits fuel n ++ rest) ≡ read_digits n rest
read_digits-digits zero n rest h = absurd (omega arith)
read_digits-digits (suc fuel) n rest h =
    digit_cases (λ text. read_digits 0 (text ++ rest) ≡ read_digits n rest) fuel n
      (λ one. last_digit 0 n n rest (ground arith) (omega arith))
      (λ more.
        ap (read_digits 0) (append_assoc (digits fuel (n / 10)) ((48 + n % 10) ∷ []) rest)
        ∙ read_digits-digits fuel (n / 10) ((48 + n % 10) ∷ rest) (ground arith)
        ∙ last_digit (n / 10) (n % 10) n rest (omega arith) (omega arith))

unfoldable pub StartsWithDigit : List ℕ → Type 0
StartsWithDigit text = (c : ℕ) × (rest : List ℕ) × (text ≡ c ∷ rest) × (is_digit c ≡ true)

pub digits-StartsWithDigit :
    (fuel n : ℕ) (rest : List ℕ) → n < fuel → StartsWithDigit (digits fuel n ++ rest)
unfolding StartsWithDigit
digits-StartsWithDigit zero n rest h = absurd (omega arith)
digits-StartsWithDigit (suc fuel) n rest h =
    digit_cases (λ text. StartsWithDigit (text ++ rest)) fuel n
      (λ one. (48 + n, rest, refl, ground arith))
      (λ more.
        rw (append_assoc (digits fuel (n / 10)) ((48 + n % 10) ∷ []) rest)
          (digits-StartsWithDigit fuel (n / 10) ((48 + n % 10) ∷ rest) (ground arith)))

read_digits-Stops : (n : ℕ) (rest : List ℕ) → Stops rest → read_digits n rest ≡ (n, rest)
unfolding read_digits
read_digits-Stops n [] stops = refl
read_digits-Stops n (c ∷ rest) stops = rw (stops, read_digits) refl

read_magnitude-some :
    (text : List ℕ)
    → starts_with_digit text ≡ true
    → read_magnitude text ≡ some (read_digits 0 text)
unfolding read_magnitude
read_magnitude-some text h = rw h refl

pub read_magnitude-digits :
    (fuel n : ℕ) (rest : List ℕ)
    → n < fuel
    → Stops rest
    → read_magnitude (digits fuel n ++ rest) ≡ some (n, rest)
unfolding StartsWithDigit
read_magnitude-digits fuel n rest h stops =
    let (c, text, e, digit) = digits-StartsWithDigit fuel n rest h in
    let starts : starts_with_digit (digits fuel n ++ rest) ≡ true = rw e digit in
    read_magnitude-some (digits fuel n ++ rest) starts
    ∙ ap some (read_digits-digits fuel n rest h ∙ read_digits-Stops n rest stops)

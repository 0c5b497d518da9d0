-- ===== src/Metrics/Extraction.antt =====
-- `operator>>` of an input stream in the C locale, as far as metrics/src/MetricsCollector.cpp uses it: on
-- the text that is left, `none` where the stream fails.
use edgevision_rv1126b.Prelude.{
  ℕ, zero, suc, ◌+◌, ◌-◌, ◌*◌, ◌%◌, ◌^◌, Bool, true, false, ◌&&◌, ◌||◌, List, [], ◌∷◌, Option, none,
  some, ltb, leb, ◌==◌, if◌then◌else◌, ◌>>=◌,
}
use edgevision_rv1126b.Prelude.Int.{ℤ, pos, sub_ℕ}

abbrev pub is_space : ℕ → Bool
is_space c = c == 32 || (leb 9 c && leb c 13)

abbrev pub is_digit : ℕ → Bool
is_digit c = leb 48 c && leb c 57

unfoldable pub skip_spaces : List ℕ → List ℕ
skip_spaces [] = []
skip_spaces (c ∷ text) = elim (is_space c) [ true ↦ skip_spaces text | false ↦ c ∷ text ]

-- The digits behind those that make `value`.
unfoldable pub read_digits : ℕ → List ℕ → ℕ × List ℕ
read_digits value [] = (value, [])
read_digits value (c ∷ text) = elim (is_digit c) [
  | true ↦ read_digits (value * 10 + (c - 48)) text
  | false ↦ (value, c ∷ text)
]

abbrev pub starts_with_digit : List ℕ → Bool
starts_with_digit [] = false
starts_with_digit (c ∷ text) = is_digit c

-- At least one digit.
unfoldable pub read_magnitude : List ℕ → Option (ℕ × List ℕ)
unfolding read_digits
read_magnitude text = if starts_with_digit text then some (read_digits 0 text) else none

-- A sign may stand in front: true for a minus.
unfoldable pub read_sign : List ℕ → Bool × List ℕ
read_sign [] = (false, [])
read_sign (c ∷ text) =
    if c == 45 then (true, text) else if c == 43 then (false, text) else (false, c ∷ text)

-- A `uint64_t`: a minus negates modulo 2^64, as `strtoull` does.
unfoldable pub extract_u64 : List ℕ → Option (ℕ × List ℕ)
unfolding skip_spaces read_sign read_magnitude
extract_u64 text =
    let (negative, unsigned) = read_sign (skip_spaces text) in
    read_magnitude unsigned >>= λ (n, rest).
    if ltb n (2 ^ 64) then some (if negative then (2 ^ 64 - n) % 2 ^ 64 else n, rest) else none

-- A `long`.
unfoldable pub extract_long : List ℕ → Option (ℤ × List ℕ)
unfolding skip_spaces read_sign read_magnitude
extract_long text =
    let (negative, unsigned) = read_sign (skip_spaces text) in
    read_magnitude unsigned >>= λ (n, rest).
    if ltb n (2 ^ 63) || (negative && n == 2 ^ 63)
    then some (if negative then sub_ℕ 0 n else pos n, rest)
    else none

-- A `char`.
unfoldable pub extract_char : List ℕ → Option (ℕ × List ℕ)
unfolding skip_spaces
extract_char text = elim (skip_spaces text) [ [] ↦ none | c ∷ rest ↦ some (c, rest) ]

-- What is left behind the characters that are not spaces.
unfoldable pub behind_word : List ℕ → List ℕ
behind_word [] = []
behind_word (c ∷ text) = elim (is_space c) [ true ↦ c ∷ text | false ↦ behind_word text ]

-- A `std::string`, which nothing reads: the text behind it.
unfoldable pub skip_word : List ℕ → Option (List ℕ)
unfolding skip_spaces behind_word
skip_word text = elim (skip_spaces text) [ [] ↦ none | c ∷ rest ↦ some (behind_word rest) ]

-- `n` numbers in turn.
unfoldable pub extract_u64s : ℕ → List ℕ → Option (List ℕ × List ℕ)
unfolding extract_u64
extract_u64s zero text = some ([], text)
extract_u64s (suc n) text = do
  (value, rest) ← extract_u64 text
  (values, end) ← extract_u64s n rest
  some (value ∷ values, end)

unfoldable pub extract_longs : ℕ → List ℕ → Option (List ℤ × List ℕ)
unfolding extract_long
extract_longs zero text = some ([], text)
extract_longs (suc n) text = do
  (value, rest) ← extract_long text
  (values, end) ← extract_longs n rest
  some (value ∷ values, end)

-- ===== src/EventLogger/Escapes.antt =====
-- A reader of JSON strings gets back what was escaped.
use edgevision_rv1126b.Prelude.{
  ℕ, ◌≤◌, ◌≡◌, refl, sym, ap, ◌∙◌, ◌⊎◌, true, false, List, [], ◌∷◌, ◌++◌, Option, none, some, arith,
  ltb, ◌==◌, if◌then◌else◌, All, append_assoc, ◌>>=◌, if-intro, le→ltb, ==_iff,
}
use edgevision_rv1126b.EventLogger.{escape_char, escape_json}

-- The characters that RFC 8259 lets stand behind a backslash, without the four hexadecimal digits
-- of `\u`, which `escapeJson` never writes.
unfoldable pub unescape : ℕ → Option ℕ
unescape c =
    if c == 34
    then some 34
    else if c == 92
    then some 92
    else if c == 47
    then some 47
    else if c == b'b'
    then some 8
    else if c == b'f'
    then some 12
    else if c == b'n'
    then some 10
    else if c == b'r'
    then some 13
    else if c == b't'
    then some 9
    else none

abbrev cons_to : ℕ → List ℕ × List ℕ → List ℕ × List ℕ
cons_to c (text, rest) = (c ∷ text, rest)

-- The text up to the closing quote, and what follows it; a control character is refused.
unfoldable pub read_string : List ℕ → Option (List ℕ × List ℕ)
unfolding unescape
read_string [] = none
read_string (c ∷ []) = if c == 34 then some ([], []) else none
read_string (c ∷ d ∷ text) =
    let escaped = read_string text in
    let plain = read_string (d ∷ text) in
    if c == 34
    then some ([], d ∷ text)
    else if c == 92
    then (unescape d >>= λ e. escaped >>= λ r. some (cons_to e r))
    else if ltb c 32
    then none
    else (plain >>= λ r. some (cons_to c r))

-- No control character but tab, line feed and carriage return.
abbrev pub IsPrintable : ℕ → Type 0
IsPrintable c = (32 ≤ c) ⊎ ((c ≡ 9) ⊎ ((c ≡ 10) ⊎ (c ≡ 13)))

-- There is always something behind a text, the closing quote at least.
read_string-escape_char :
    (c d : ℕ) (text s rest : List ℕ)
    → IsPrintable c
    → read_string (d ∷ text) ≡ some (s, rest)
    → read_string (escape_char c ++ d ∷ text) ≡ some (c ∷ s, rest)
unfolding read_string unescape
read_string-escape_char c d text s rest p e =
    if-intro Reads (c == 92) (λ h. rw e (same 92 h))
      (λ n92.
        if-intro Reads (c == 34) (λ h. rw e (same 34 h))
          (λ n34.
            if-intro Reads (c == 10) (λ h. rw e (same 10 h))
              (λ n10.
                if-intro Reads (c == 13) (λ h. rw e (same 13 h))
                  (λ n13.
                    if-intro Reads (c == 9) (λ h. rw e (same 9 h))
                      (λ n9.
                        let above : ltb c 32 ≡ false = le→ltb c 32 (ground arith) in
                        rw (n34, n92, above, e) refl)))))
  where
    Reads : List ℕ → Type 0
    Reads l = read_string (l ++ d ∷ text) ≡ some (c ∷ s, rest)

    answer : ℕ → Option (List ℕ × List ℕ)
    answer k = some (k ∷ s, rest)

    same : (k : ℕ) → (c == k) ≡ true → answer k ≡ answer c
    same k h = ap answer (sym ((==_iff c k).0 h))

-- Something stands behind every escaped text.
more :
    (input rest : List ℕ) → (d : ℕ) × (text : List ℕ) × (escape_json input ++ 34 ∷ rest ≡ d ∷ text)
more input rest = front (escape_json input)
  where
    front : (l : List ℕ) → (d : ℕ) × (text : List ℕ) × (l ++ 34 ∷ rest ≡ d ∷ text)
    front [] = (34, rest, refl)
    front (x ∷ l) = (x, l ++ 34 ∷ rest, refl)

closing : (rest : List ℕ) → read_string (34 ∷ rest) ≡ some ([], rest)
unfolding read_string
closing [] = refl
closing (d ∷ text) = refl

-- `escapeJson` of a text without control characters but tab, line feed and carriage return: a reader
-- of JSON that comes to the opening quote reads back exactly the text, and stops at exactly the
-- closing quote, whatever follows it.
pub read_string-escape_json :
    (input rest : List ℕ)
    → All IsPrintable input
    → read_string (escape_json input ++ 34 ∷ rest) ≡ some (input, rest)
unfolding escape_json
read_string-escape_json [] rest h = closing rest
read_string-escape_json (c ∷ input) rest (p, h) =
    let (d, text, e) = more input rest in
    ap read_string (
      append_assoc (escape_char c) (escape_json input) (34 ∷ rest) ∙ ap (λ l. escape_char c ++ l) e)
    ∙ read_string-escape_char c d text input rest p
        (ap read_string (sym e) ∙ read_string-escape_json input rest h)

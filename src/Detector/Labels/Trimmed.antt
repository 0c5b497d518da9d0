-- ===== src/Detector/Labels/Trimmed.antt =====
-- What `trim` leaves of a line.
use edgevision_rv1126b.Prelude.{
  ℕ, suc, ◌+◌, ◌-◌, ◌≤◌, ◌≡◌, refl, sym, ap, ◌∙◌, true, false, List, [], ◌∷◌, ◌++◌, Option, none,
  some, arith, if◌then◌else◌, take, drop, length, All, take-append-drop, if-intro, append-nil,
  get_elem?, get_elem?-take, get_elem?-drop, get_elem?-lt, All-get_elem?, drop-add, length-take,
  length-drop, dec_le,
}
use edgevision_rv1126b.Detector.Labels.{is_blank, find_first_not_blank, find_last_not_blank, trim}

-- No blank at either end.
abbrev pub NoBlankEnds : List ℕ → Type 0
NoBlankEnds text =
    ((c : ℕ) → get_elem? text 0 ≡ some c → is_blank c ≡ false)
    × ((c : ℕ) → get_elem? text (length text - 1) ≡ some c → is_blank c ≡ false)

-- A line as blanks, the text that is left, and blanks.
pub record Trimmed (line text : List ℕ) : Type 0 where
  pub before : List ℕ
  pub after : List ℕ
  pub whole : line ≡ before ++ (text ++ after)
  pub blank_before : All (λ c. is_blank c ≡ true) before
  pub blank_after : All (λ c. is_blank c ≡ true) after
  pub ends : NoBlankEnds text

-- The first place that is not blank splits the line.
First : List ℕ → Option ℕ → Type 0
First text none = All (λ c. is_blank c ≡ true) text
First text (some i) =
    All (λ c. is_blank c ≡ true) (take i text)
    × (c : ℕ) × (get_elem? text i ≡ some c)
    × (is_blank c ≡ false)

first_lem : (text : List ℕ) → First text (find_first_not_blank text)
unfolding find_first_not_blank First
first_lem [] = tt
first_lem (c ∷ text) = by_rest (find_first_not_blank text) (first_lem text)
  where
    by_rest :
        (r : Option ℕ)
        → First text r
        → First
            (c ∷ text)
            (if is_blank c then elim r [ none ↦ none | some i ↦ some (suc i) ] else some 0)
    by_rest none h = if-intro (First (c ∷ text)) (is_blank c) (λ b. (b, h)) (λ n. (tt, c, refl, n))
    by_rest (some i) (h, d, e, n) =
        if-intro (First (c ∷ text)) (is_blank c) (λ b. ((b, h), d, e, n)) (λ n'. (tt, c, refl, n'))

Last : List ℕ → Option ℕ → Type 0
Last text none = All (λ c. is_blank c ≡ true) text
Last text (some i) =
    All (λ c. is_blank c ≡ true) (drop (suc i) text)
    × (c : ℕ) × (get_elem? text i ≡ some c)
    × (is_blank c ≡ false)

last_lem : (text : List ℕ) → Last text (find_last_not_blank text)
unfolding find_last_not_blank Last
last_lem [] = tt
last_lem (c ∷ text) = by_rest (find_last_not_blank text) (last_lem text)
  where
    by_rest :
        (r : Option ℕ)
        → Last text r
        → Last
            (c ∷ text)
            (elim r [ some i ↦ some (suc i) | none ↦ if is_blank c then none else some 0 ])
    by_rest none h = if-intro (Last (c ∷ text)) (is_blank c) (λ b. (b, h)) (λ n. (h, c, refl, n))
    by_rest (some i) h = h

blank-Trimmed : (line : List ℕ) → All (λ c. is_blank c ≡ true) line → Trimmed line []
blank-Trimmed line h = record {
  before = line;
  after = [];
  whole = sym (append-nil line);
  blank_before = h;
  blank_after = tt;
  ends = (λ c e. cc, λ c e. cc);
}

-- The first place that is not blank is not behind the last one.
first_le_last :
    (line : List ℕ) (i j c : ℕ)
    → All (λ d. is_blank d ≡ true) (take i line)
    → get_elem? line j ≡ some c
    → is_blank c ≡ false
    → i ≤ j
first_le_last line i j c h e n = elim (dec_le i j) [
  | yes le ↦ le
  | no gt ↦
      let blank =
        All-get_elem? (λ d. is_blank d ≡ true) (take i line) j c h
          (get_elem?-take i j line (omega arith) ∙ e) in
      cc
]

middle-Trimmed :
    (line : List ℕ) (i j c d : ℕ)
    → All (λ x. is_blank x ≡ true) (take i line)
    → get_elem? line i ≡ some c
    → is_blank c ≡ false
    → All (λ x. is_blank x ≡ true) (drop (suc j) line)
    → get_elem? line j ≡ some d
    → is_blank d ≡ false
    → i ≤ j
    → Trimmed line (take (j - i + 1) (drop i line))
middle-Trimmed line i j c d before ei ni after ej nj le = record {
  before = take i line;
  after = drop (suc j) line;
  whole =
      sym (take-append-drop i line)
      ∙ ap (λ l. take i line ++ l)
          (sym (take-append-drop (j - i + 1) (drop i line))
            ∙ ap (λ l. take (j - i + 1) (drop i line) ++ l) behind);
  blank_before = before;
  blank_after = after;
  ends = (λ x e. is_first x (sym (front ∙ ei) ∙ e), λ x e. is_last x (sym (back ∙ ej) ∙ e));
}
  where
    text : List ℕ
    text = take (j - i + 1) (drop i line)

    behind : drop (j - i + 1) (drop i line) ≡ drop (suc j) line
    behind = sym (drop-add i (j - i + 1) line) ∙ ap (λ k. drop k line) behind_last
      where
        behind_last : i + (j - i + 1) ≡ suc j
        behind_last = omega arith

    front : get_elem? text 0 ≡ get_elem? line i
    front =
        get_elem?-take (j - i + 1) 0 (drop i line) (omega arith)
        ∙ get_elem?-drop i 0 line
        ∙ ap (get_elem? line) (omega arith)

    last_place : length text - 1 ≡ j - i
    last_place =
        omega (
          arith,
          length-take (j - i + 1) (drop i line),
          length-drop i line,
          get_elem?-lt line j d ej,
        )

    back : get_elem? text (length text - 1) ≡ get_elem? line j
    back =
        ap (get_elem? text) last_place
        ∙ get_elem?-take (j - i + 1) (j - i) (drop i line) (omega arith)
        ∙ get_elem?-drop i (j - i) line
        ∙ ap (get_elem? line) (omega arith)

    is_first : (x : ℕ) → some c ≡ some x → is_blank x ≡ false
    is_first x e = let same : c ≡ x = cc in rw (← same) ni

    is_last : (x : ℕ) → some d ≡ some x → is_blank x ≡ false
    is_last x e = let same : d ≡ x = cc in rw (← same) nj

-- `trim` takes blanks away, and only at the ends: the line is blanks, the text that is left, and
-- blanks, and the text neither begins nor ends with one.
pub trim-Trimmed : (line : List ℕ) → Trimmed line (trim line)
unfolding trim First Last
trim-Trimmed line =
    by_ends (find_first_not_blank line) (find_last_not_blank line) (first_lem line) (last_lem line)
  where
    by_ends :
        (f l : Option ℕ)
        → First line f
        → Last line l
        → Trimmed line (elim f [
          | none ↦ []
          | some first ↦ elim l [
            | none ↦ []
            | some last ↦ take (last - first + 1) (drop first line)
          ]
        ])
    by_ends none l h k = blank-Trimmed line h
    by_ends (some i) none (h, c, e, n) k =
        let blank = All-get_elem? (λ x. is_blank x ≡ true) line i c k e in cc
    by_ends (some i) (some j) (h, c, e, n) (k, d, e', n') =
        middle-Trimmed line i j c d h e n k e' n' (first_le_last line i j d h e' n')

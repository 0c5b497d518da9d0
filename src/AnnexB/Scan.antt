-- ===== src/AnnexB/Scan.antt =====
-- `findStartCode` and the two loops over it on any data: what a hit means, and that the loops end.
use edgevision_rv1126b.Prelude.{
  ℕ, zero, suc, ◌+◌, ◌*◌, ◌≤◌, ◌<◌, ◌≡◌, ◌≢◌, refl, Bool, true, false, List, [], ◌∷◌, Option, none,
  some, arith, length, get_or, drop, ap, ◌∙◌, ◌⊎◌, inl, inr, Option-cases, length-drop, get_or-drop,
  if◌then◌else◌, leb,
}
use edgevision_rv1126b.AnnexB.{
  StartCode, scan, find_start_code, nal_index, nal_type_of, contains_from, contains_nal_type,
  extract_from, extract_bootstrap_config,
}

-- The three bytes 0, 0, 1 stand from position `k` on.
pub record StartsAt (bytes : List ℕ) (k : ℕ) : Type 0 where
  pub zero_first : get_or bytes k 1 ≡ 0
  pub zero_second : get_or bytes (suc k) 1 ≡ 0
  pub then_one : get_or bytes (suc (suc k)) 0 ≡ 1

-- A hit of the scan over `xs`, whose first byte has position `i`. The code proper, without the zero
-- that may stand in front of it, begins `at` bytes behind it.
pub record Hit (i : ℕ) (xs : List ℕ) (code : StartCode) : Type 0 where
  pub at : ℕ
  pub starts : StartsAt xs at
  pub from : i ≤ code.start
  pub within : code.start + 4 ≤ i + length xs
  pub sized : (code.prefix_len ≡ 3) ⊎ (code.prefix_len ≡ 4)
  pub ends : nal_index code ≡ i + at + 3
  pub last : nal_index code ≤ i + length xs

Hit-cons : (i x : ℕ) (xs : List ℕ) (code : StartCode) → Hit (i + 1) xs code → Hit i (x ∷ xs) code
Hit-cons i x xs code h = record {
  at = suc h.at;
  starts = record {
    zero_first = h.starts.zero_first;
    zero_second = h.starts.zero_second;
    then_one = h.starts.then_one;
  };
  from = omega (arith, h.from);
  within = omega (arith, h.within);
  sized = h.sized;
  ends = omega (arith, h.ends);
  last = omega (arith, h.last);
}

short-Hit :
    (i a b c d : ℕ) (rest : List ℕ)
    → a ≡ 0
    → b ≡ 0
    → c ≡ 1
    → Hit i (a ∷ b ∷ c ∷ d ∷ rest) (record { start = i; prefix_len = 3 })
short-Hit i a b c d rest ea eb ec = record {
  at = 0;
  starts = record { zero_first = ea; zero_second = eb; then_one = ec };
  from = omega arith;
  within = omega arith;
  sized = inl refl;
  ends = omega arith;
  last = omega arith;
}

long-Hit :
    (i a b c d : ℕ) (rest : List ℕ)
    → b ≡ 0
    → c ≡ 0
    → d ≡ 1
    → Hit i (a ∷ b ∷ c ∷ d ∷ rest) (record { start = i; prefix_len = 4 })
long-Hit i a b c d rest eb ec ed = record {
  at = 1;
  starts = record { zero_first = eb; zero_second = ec; then_one = ed };
  from = omega arith;
  within = omega arith;
  sized = inr refl;
  ends = omega arith;
  last = omega arith;
}

scan-Hit : (i : ℕ) (xs : List ℕ) (code : StartCode) → scan i xs ≡ some code → Hit i xs code
unfolding scan
scan-Hit i (a ∷ b ∷ c ∷ d ∷ rest) code e = ground (
  arith,
  short-Hit i a b c d rest,
  long-Hit i a b c d rest,
  λ (h : Hit (i + 1) (b ∷ c ∷ d ∷ rest) code). Hit-cons i a (b ∷ c ∷ d ∷ rest) code h,
  scan-Hit (i + 1) (b ∷ c ∷ d ∷ rest) code,
)
scan-Hit i _ code e = cc

-- What `findStartCode` returns: a start code that lies within the data, at or behind `from`.
pub record Found (bytes : List ℕ) (from : ℕ) (code : StartCode) : Type 0 where
  pub at : ℕ
  pub starts : StartsAt bytes at
  pub ends : nal_index code ≡ at + 3
  pub not_before : from ≤ code.start
  pub within : code.start + 4 ≤ length bytes
  pub sized : (code.prefix_len ≡ 3) ⊎ (code.prefix_len ≡ 4)
  pub last : nal_index code ≤ length bytes

StartsAt-drop :
    (from at : ℕ) (bytes : List ℕ) → StartsAt (drop from bytes) at → StartsAt bytes (from + at)
StartsAt-drop from at bytes s = record {
  zero_first = get_or-drop from at bytes 1 ∙ s.zero_first;
  zero_second =
      ap (λ k. get_or bytes k 1) (omega arith) ∙ get_or-drop from (suc at) bytes 1 ∙ s.zero_second;
  then_one =
      ap (λ k. get_or bytes k 0) (omega arith)
      ∙ get_or-drop from (suc (suc at)) bytes 0
      ∙ s.then_one;
}

pub find_start_code-Found :
    (bytes : List ℕ) (from : ℕ) (code : StartCode)
    → find_start_code bytes from ≡ some code
    → Found bytes from code
unfolding find_start_code
find_start_code-Found bytes from code e =
    let h = scan-Hit from (drop from bytes) code e in
    record {
      at = from + h.at;
      starts = StartsAt-drop from h.at bytes h.starts;
      ends = h.ends;
      not_before = h.from;
      within = omega (arith, h.from, h.within, length-drop from bytes);
      sized = h.sized;
      last = omega (arith, h.last, h.from, h.within, length-drop from bytes);
    }

-- The data holds a NAL unit header of type `nal_type` behind a start code.
pub record HasUnit (bytes : List ℕ) (nal_type : ℕ) : Type 0 where
  pub at : ℕ
  pub starts : StartsAt bytes at
  pub inside : at + 3 < length bytes
  pub typed : nal_type_of (get_or bytes (at + 3) 0) ≡ nal_type

-- The answer of a scan that may run out of fuel.
abbrev Answers : List ℕ → ℕ → Option Bool → Type 0
Answers bytes nal_type none = ⊥
Answers bytes nal_type (some false) = Unit
Answers bytes nal_type (some true) = HasUnit bytes nal_type

header-HasUnit :
    (bytes : List ℕ) (nal_type from : ℕ) (code : StartCode)
    → Found bytes from code
    → nal_index code < length bytes
    → nal_type_of (get_or bytes (nal_index code) 0) ≡ nal_type
    → HasUnit bytes nal_type
header-HasUnit bytes nal_type from code f lt e = record {
  at = f.at;
  starts = f.starts;
  inside = omega (arith, f.ends);
  typed = rw f.ends at e;
}

Answers-sound :
    (bytes : List ℕ) (nal_type : ℕ) (r : Option Bool)
    → Answers bytes nal_type r
    → (r ≢ none) × (r ≡ some true → HasUnit bytes nal_type)
Answers-sound bytes nal_type none a = absurd a
Answers-sound bytes nal_type (some false) a = (λ p. cc, λ p. cc)
Answers-sound bytes nal_type (some true) a = (λ p. cc, λ p. a)

if-ne-none {ℓ} :
    {A : Type ℓ} (test : Bool) (a : A) (r : Option A)
    → r ≢ none
    → (if test then some a else r) ≢ none
if-ne-none true a r h = λ p. cc
if-ne-none false a r h = h

if-Answers :
    (bytes : List ℕ) (nal_type : ℕ) (test : Bool) (further : Option Bool)
    → (test ≡ true → HasUnit bytes nal_type)
    → Answers bytes nal_type further
    → Answers bytes nal_type (if test then some true else further)
if-Answers bytes nal_type true further hit miss = hit refl
if-Answers bytes nal_type false further hit miss = miss

contains_from-Answers :
    (fuel : ℕ) (bytes : List ℕ) (nal_type offset : ℕ)
    → offset ≤ length bytes + 1
    → length bytes + 2 ≤ 2 * fuel + offset
    → Answers bytes nal_type (contains_from fuel bytes nal_type offset)
unfolding contains_from
contains_from-Answers zero bytes nal_type offset le enough = absurd (omega arith)
contains_from-Answers (suc fuel) bytes nal_type offset le enough =
    elim (Option-cases (find_start_code bytes offset)) [
      | inl e ↦ rw (e, contains_from) tt
      | inr (code, e) ↦
          let f = find_start_code-Found bytes offset code e in
          rw (e, contains_from)
            (if-Answers bytes nal_type _ _
              (λ t. header-HasUnit bytes nal_type offset code f (ground arith) (ground arith))
              (contains_from-Answers fuel bytes nal_type (nal_index code + 1)
                (omega (arith, f.last)) (omega (arith, f.not_before, f.sized))))
    ]

-- `containsNalType` ends on any data, and answers true only if the data holds a NAL unit of that
-- type: a start code within the data whose next byte has the type in its low five bits.
pub contains_nal_type_sound :
    (bytes : List ℕ) (nal_type : ℕ)
    → (contains_nal_type bytes nal_type ≢ none)
      × (contains_nal_type bytes nal_type ≡ some true → HasUnit bytes nal_type)
unfolding contains_nal_type
contains_nal_type_sound bytes nal_type =
    Answers-sound bytes nal_type _
      (contains_from-Answers (length bytes + 1) bytes nal_type 0 (omega arith) (omega arith))

pub extract_from-ne-none :
    (fuel : ℕ) (bytes : List ℕ) (offset : ℕ) (config : List ℕ)
    → offset ≤ length bytes + 1
    → length bytes + 2 ≤ 2 * fuel + offset
    → extract_from fuel bytes offset config ≢ none
unfolding extract_from
extract_from-ne-none zero bytes offset config le enough = absurd (omega arith)
extract_from-ne-none (suc fuel) bytes offset config le enough =
    elim (Option-cases (find_start_code bytes offset)) [
      | inl e ↦ rw (e, extract_from) (λ p. cc)
      | inr (code, e) ↦
          let f = find_start_code-Found bytes offset code e in
          rw (e, extract_from)
            (if-ne-none (leb (length bytes) (nal_index code)) config _ (
              extract_from-ne-none fuel bytes (nal_index code + 1) _ (omega (arith, f.last))
                (omega (arith, f.not_before, f.sized))))
    ]

-- `extractBootstrapConfig` ends on any data.
pub extract_bootstrap_config-ne-none : (bytes : List ℕ) → extract_bootstrap_config bytes ≢ none
unfolding extract_bootstrap_config
extract_bootstrap_config-ne-none bytes =
    extract_from-ne-none (length bytes + 1) bytes 0 [] (omega arith) (omega arith)

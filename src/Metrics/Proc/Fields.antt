-- ===== src/Metrics/Proc/Fields.antt =====
-- `readProcSample` finds its fields in the lines that the kernel prints.
use edgevision_rv1126b.Prelude.{
  ℕ, suc, ◌+◌, ◌^◌, ◌<◌, ◌≡◌, refl, sym, ap, ap₂, ◌∙◌, true, false, List, [], ◌∷◌, ◌++◌, map, none,
  some, arith, ◌==◌, length, length-append, drop, All, lt→ltb, ◌>>=◌,
}
use edgevision_rv1126b.Prelude.Int.{ℤ, pos, pos_part}
use edgevision_rv1126b.Text.{ascii}
use edgevision_rv1126b.Metrics.{u64}
use edgevision_rv1126b.Metrics.Extraction.{
  is_space, skip_spaces, extract_char, extract_u64s, extract_longs,
}
use edgevision_rv1126b.Metrics.Proc.{
  sum, sample_of, read_total, rfind, behind_name, read_process, read_proc_sample,
}
use edgevision_rv1126b.Metrics.Proc.Decimals.{Stops}
use edgevision_rv1126b.Metrics.Proc.Printed.{
  shown, shown-Stops, magnitude, as_u64, FitsLong, extract_u64-to_string, extract_long-to_string,
  extract_u64s-shown, extract_longs-shown, NoParen, shown-NoParen,
}

-- The fields of /proc/self/stat from the state, field 3, on.
pub record SelfStat : Type 0 where
  pub state : ℕ
  pub before : List ℤ
  pub utime : ℕ
  pub stime : ℕ
  pub between : List ℤ
  pub vsize : ℕ
  pub rss : ℤ
  pub others : List ℕ

-- The fields stand at their numbers and fit into the types that they are read as.
pub record IsSelfStat (s : SelfStat) : Type 0 where
  pub no_space : is_space s.state ≡ false
  pub no_paren : (s.state == 41) ≡ false
  pub from_4_to_13 : length s.before ≡ 10
  pub before_fit : All (λ z. magnitude z < 2 ^ 64) s.before
  pub utime_fits : s.utime < 2 ^ 64
  pub stime_fits : s.stime < 2 ^ 64
  pub from_16_to_22 : length s.between ≡ 7
  pub between_fit : All FitsLong s.between
  pub vsize_fits : s.vsize < 2 ^ 64
  pub rss_fits : FitsLong s.rss
  pub others_stop : Stops s.others
  pub others_no_paren : NoParen s.others

unfoldable pub from_16 : SelfStat → List ℕ
unfolding shown
from_16 s = shown s.between (shown (pos s.vsize ∷ s.rss ∷ []) s.others)

unfoldable pub from_4 : SelfStat → List ℕ
unfolding shown from_16
from_4 s = shown s.before (shown (pos s.utime ∷ pos s.stime ∷ []) (from_16 s))

-- The line: `name` is the number of the process, a space, an opening parenthesis and the name of the
-- program, which may have spaces and parentheses of its own.
unfoldable pub line_of : List ℕ → SelfStat → List ℕ
unfolding from_4
line_of name s = name ++ 41 ∷ 32 ∷ s.state ∷ from_4 s

rfind-NoParen : (text : List ℕ) → NoParen text → rfind 41 text ≡ none
unfolding rfind
rfind-NoParen [] h = refl
rfind-NoParen (c ∷ text) (h, hs) = rw (rfind-NoParen text hs, h) refl

rfind-append :
    (name text : List ℕ) → NoParen text → rfind 41 (name ++ 41 ∷ text) ≡ some (length name)
unfolding rfind
rfind-append [] text h = rw (rfind-NoParen text h) refl
rfind-append (c ∷ name) text h = rw (rfind-append name text h) refl

drop-behind :
    (name : List ℕ) (a b : ℕ) (text : List ℕ) → drop (length name + 2) (name ++ a ∷ b ∷ text) ≡ text
drop-behind [] a b text = refl
drop-behind (c ∷ name) a b text =
    let shift : suc (length name) + 2 ≡ suc (length name + 2) = omega arith in
    rw shift (drop-behind name a b text)

behind_name-line :
    (name : List ℕ) (state : ℕ) (text : List ℕ)
    → (state == 41) ≡ false
    → NoParen text
    → behind_name (name ++ 41 ∷ 32 ∷ state ∷ text) ≡ some (state ∷ text)
unfolding behind_name
behind_name-line name state text h hs =
    let room : length name + 2 < length (name ++ 41 ∷ 32 ∷ state ∷ text) =
      omega (arith, length-append name (41 ∷ 32 ∷ state ∷ text)) in
    rw
      (
        rfind-append name (32 ∷ state ∷ text) (refl, (h, hs)),
        lt→ltb (length name + 2) (length (name ++ 41 ∷ 32 ∷ state ∷ text)) room,
        drop-behind name 41 32 (state ∷ text),
      )
      refl

from_4-NoParen : (s : SelfStat) → IsSelfStat s → NoParen (from_4 s)
unfolding from_4
from_4-NoParen s i = shown-NoParen s.before _ (
    shown-NoParen (pos s.utime ∷ pos s.stime ∷ []) _ (
      shown-NoParen s.between _
        (shown-NoParen (pos s.vsize ∷ s.rss ∷ []) s.others i.others_no_paren)))

extract_char-state :
    (state : ℕ) (text : List ℕ)
    → is_space state ≡ false
    → extract_char (state ∷ text) ≡ some (state, text)
unfolding extract_char
extract_char-state state text h = rw (h, skip_spaces, extract_char) refl

read_process-line :
    (name : List ℕ) (s : SelfStat)
    → IsSelfStat s
    → read_process (line_of name s) ≡ some (u64 (s.utime + s.stime), pos_part s.rss)
unfolding read_process line_of from_4 from_16 shown
read_process-line name s i =
    let times = shown (pos s.utime ∷ pos s.stime ∷ []) (from_16 s) in
    let sizes = shown (pos s.vsize ∷ s.rss ∷ []) s.others in
    let stops : Stops (from_16 s) = shown-Stops s.between sizes refl in
    let before : extract_u64s 10 (shown s.before times) ≡ some (map as_u64 s.before, times) =
      ap (λ n. extract_u64s n (shown s.before times)) (sym i.from_4_to_13)
      ∙ extract_u64s-shown s.before times i.before_fit refl in
    let between : extract_longs 7 (shown s.between sizes) ≡ some (s.between, sizes) =
      ap (λ n. extract_longs n (shown s.between sizes)) (sym i.from_16_to_22)
      ∙ extract_longs-shown s.between sizes i.between_fit refl in
    rw
      (
        behind_name-line name s.state (from_4 s) i.no_paren (from_4-NoParen s i),
        extract_char-state s.state (from_4 s) i.no_space,
        before,
        extract_u64-to_string (pos s.utime) (shown (pos s.stime ∷ []) (from_16 s)) i.utime_fits
            refl,
        extract_u64-to_string (pos s.stime) (from_16 s) i.stime_fits stops,
        between,
        extract_u64-to_string (pos s.vsize) (shown (s.rss ∷ []) s.others) i.vsize_fits refl,
        extract_long-to_string s.rss s.others i.rss_fits i.others_stop,
      )
      refl

-- The second of two spaces.
extract_u64s-space :
    (n : ℕ) (text : List ℕ) → extract_u64s (suc n) (32 ∷ text) ≡ extract_u64s (suc n) text
unfolding extract_u64s
extract_u64s-space n text = refl

read_total-shown :
    (counts : List ℤ) (more : List ℕ)
    → length counts ≡ 8
    → All (λ z. magnitude z < 2 ^ 64) counts
    → Stops more
    → read_total (ascii "cpu " ++ shown counts more) ≡ some (u64 (sum (map as_u64 counts)))
unfolding read_total
read_total-shown counts more eight fit stops =
    let counted : extract_u64s 8 (32 ∷ shown counts more) ≡ some (map as_u64 counts, more) =
      extract_u64s-space 7 (shown counts more)
      ∙ ap (λ n. extract_u64s n (shown counts more)) (sym eight)
      ∙ extract_u64s-shown counts more fit stops in
    ap (λ o. o >>= λ (values, rest). some (u64 (sum values))) counted

-- Whatever the program is called, with spaces and parentheses too, `readProcSample` finds in the lines that
-- the kernel prints the sum of the eight numbers of /proc/stat, the sum of fields 14 and 15 of
-- /proc/self/stat, each modulo 2^64, and field 24, 0 in the place of a negative one. The numbers are in the
-- ranges of the types they are read as; where that is `uint64_t` a negative one is read modulo 2^64.
pub read_proc_sample-line :
    (counts : List ℤ) (more name : List ℕ) (s : SelfStat)
    → length counts ≡ 8
    → All (λ z. magnitude z < 2 ^ 64) counts
    → Stops more
    → IsSelfStat s
    → read_proc_sample (some (ascii "cpu " ++ shown counts more)) (some (line_of name s)) ≡ record {
      total_jiffies = u64 (sum (map as_u64 counts));
      process_jiffies = u64 (s.utime + s.stime);
      rss_pages = pos_part s.rss;
      valid = true;
    }
unfolding read_proc_sample
read_proc_sample-line counts more name s eight fit stops i =
    ap₂ sample_of (read_total-shown counts more eight fit stops) (read_process-line name s i)

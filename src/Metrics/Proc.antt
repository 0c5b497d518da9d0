-- ===== src/Metrics/Proc.antt =====
-- `readProcSample` of metrics/src/MetricsCollector.cpp, over the text of the two files in /proc.
pub mod Decimals
pub mod Printed
pub mod Fields
mod Tests
use edgevision_rv1126b.Prelude.{
  ℕ, zero, suc, ◌+◌, Bool, true, false, List, [], ◌∷◌, Option, none, some, ltb, ◌==◌, if◌then◌else◌,
  length, drop, ◌>>=◌,
}
use edgevision_rv1126b.Prelude.Int.{pos_part}
use edgevision_rv1126b.Metrics.{u64, ProcSample}
use edgevision_rv1126b.Metrics.Extraction.{
  extract_u64, extract_long, extract_char, skip_word, extract_u64s, extract_longs,
}

abbrev pub sum : List ℕ → ℕ
sum [] = 0
sum (n ∷ ns) = n + sum ns

-- `ProcSample sample;`
abbrev pub no_sample : ProcSample
no_sample = record { total_jiffies = 0; process_jiffies = 0; rss_pages = 0; valid = false }

-- `total_jiffies`, from /proc/stat.
unfoldable pub read_total : List ℕ → Option ℕ
unfolding skip_word extract_u64s
read_total text = do
  counts ← skip_word text
  (values, rest) ← extract_u64s 8 counts
  some (u64 (sum values))

-- `rfind`; `none` is `npos`.
unfoldable pub rfind : ℕ → List ℕ → Option ℕ
rfind c [] = none
rfind c (x ∷ text) = elim (rfind c text) [
  | some i ↦ some (suc i)
  | none ↦ if x == c then some 0 else none
]

-- What follows the name of the program in a line of /proc/self/stat.
unfoldable pub behind_name : List ℕ → Option (List ℕ)
unfolding rfind
behind_name line = rfind 41 line >>= λ close_paren.
    if ltb (close_paren + 2) (length line) then some (drop (close_paren + 2) line) else none

-- `process_jiffies` and `rss_pages`, from a line of /proc/self/stat.
unfoldable pub read_process : List ℕ → Option (ℕ × ℕ)
unfolding behind_name extract_char extract_u64s extract_longs extract_u64 extract_long
read_process line = do
  text ← behind_name line
  (state, fields) ← extract_char text
  (before, from_14) ← extract_u64s 10 fields
  (utime, from_15) ← extract_u64 from_14
  (stime, from_16) ← extract_u64 from_15
  (between, from_23) ← extract_longs 7 from_16
  (vsize, from_24) ← extract_u64 from_23
  (rss, rest) ← extract_long from_24
  some (u64 (utime + stime), pos_part rss)

-- The sample that the two files give.
unfoldable pub sample_of : Option ℕ → Option (ℕ × ℕ) → ProcSample
sample_of none answer = no_sample
sample_of (some total) none = record no_sample { total_jiffies = total }
sample_of (some total) (some (jiffies, pages)) = record {
  total_jiffies = total;
  process_jiffies = jiffies;
  rss_pages = pages;
  valid = true;
}

-- The content of /proc/stat, and the first line of /proc/self/stat, `none` where they cannot be read.
unfoldable pub read_proc_sample : Option (List ℕ) → Option (List ℕ) → ProcSample
unfolding read_total read_process sample_of
read_proc_sample stat self_stat = sample_of (stat >>= read_total) (self_stat >>= read_process)

-- ===== src/Metrics/Proc/Tests.antt =====
-- A program with parentheses and a space in its name.
use edgevision_rv1126b.Prelude.{ℕ, ◌≡◌, refl, true, List, [], ◌∷◌, ◌++◌, some, arith}
use edgevision_rv1126b.Prelude.Int.{ℤ, pos, negsuc}
use edgevision_rv1126b.Text.{ascii}
use edgevision_rv1126b.Metrics.Extraction.{extract_u64}
use edgevision_rv1126b.Metrics.Proc.{read_proc_sample}
use edgevision_rv1126b.Metrics.Proc.Printed.{shown}
use edgevision_rv1126b.Metrics.Proc.Fields.{SelfStat, IsSelfStat, line_of, read_proc_sample-line}

abbrev counts : List ℤ
counts = pos 1 ∷ pos 2 ∷ pos 3 ∷ pos 4 ∷ pos 5 ∷ pos 6 ∷ pos 7 ∷ pos 8 ∷ []

abbrev name : List ℕ
name = ascii "77 (edge (v) 2"

abbrev self_stat : SelfStat
self_stat = record {
  state = b'S';
  before = pos 1 ∷ pos 77 ∷ pos 77 ∷ pos 0 ∷ negsuc 0 ∷ pos 0 ∷ pos 9 ∷ pos 0 ∷ pos 0 ∷ pos 0 ∷ [];
  utime = 30;
  stime = 12;
  between = pos 0 ∷ pos 0 ∷ pos 20 ∷ negsuc 4 ∷ pos 6 ∷ pos 0 ∷ pos 999 ∷ [];
  vsize = 1000000;
  rss = pos 250;
  others = ascii " 7";
}

self_stat-IsSelfStat : IsSelfStat self_stat
self_stat-IsSelfStat = record {
  no_space = refl;
  no_paren = refl;
  from_4_to_13 = refl;
  before_fit = omega arith;
  utime_fits = omega arith;
  stime_fits = omega arith;
  from_16_to_22 = refl;
  between_fit = omega arith;
  vsize_fits = omega arith;
  rss_fits = omega arith;
  others_stop = refl;
  others_no_paren = (refl, (refl, tt));
}

-- The foreground process group of a daemon is -1.
minus_one : extract_u64 (ascii " -1 0") ≡ some (18446744073709551615, ascii " 0")
unfolding extract_u64
minus_one = refl

read_proc_sample-line_example :
    read_proc_sample (some (ascii "cpu " ++ shown counts [])) (some (line_of name self_stat))
    ≡ record { total_jiffies = 36; process_jiffies = 42; rss_pages = 250; valid = true }
read_proc_sample-line_example =
    read_proc_sample-line counts [] name self_stat refl (omega arith) tt self_stat-IsSelfStat

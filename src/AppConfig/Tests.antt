-- ===== src/AppConfig/Tests.antt =====
-- An environment with one variable set.
use edgevision_rv1126b.Prelude.{ℕ, ◌≡◌, List, Option, none, some, arith, if◌then◌else◌}
use edgevision_rv1126b.Prelude.Int.{ℤ, pos, negsuc}
use edgevision_rv1126b.Text.{ascii}
use edgevision_rv1126b.AppConfig.{AppConfig, same_text, read_config, from_environment}
use edgevision_rv1126b.AppConfig.Repaired.{Repaired, from_environment-Repaired}

abbrev getenv : List ℕ → Option (List ℕ)
getenv key = if same_text key (ascii "AICAM_ENCODE_QUEUE") then some (ascii "-3") else none

abbrev atoi : List ℕ → ℤ
atoi text = if same_text text (ascii "-3") then negsuc 2 else pos 0

from_environment-Repaired_example :
    (config : AppConfig ℕ) × (from_environment getenv atoi (λ t. 0) 35 45 ≡ some config)
    × Repaired (read_config getenv atoi (λ t. 0) 35 45) config
unfolding read_config
from_environment-Repaired_example =
    from_environment-Repaired getenv atoi (λ t. 0) 35 45 (omega arith)

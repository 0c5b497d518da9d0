-- ===== src/FileUtils/Tests.antt =====
-- A file system that is a list of directories and one of other files.
use edgevision_rv1126b.Prelude.{ℕ, ◌≡◌, refl, Bool, true, false, ◌||◌, List, [], ◌∷◌, if◌then◌else◌}
use edgevision_rv1126b.Text.{ascii}
use edgevision_rv1126b.AppConfig.{same_text}
use edgevision_rv1126b.FileUtils.{
  MkdirResult, created, exists, FileSystem, parent_path, ensure_directory,
}
use edgevision_rv1126b.FileUtils.Ensured.{Ensured}

abbrev is_member : List (List ℕ) → List ℕ → Bool
is_member [] path = false
is_member (p ∷ ps) path = same_text p path || is_member ps path

abbrev listed : FileSystem
listed = record {
  State = List (List ℕ) × List (List ℕ);
  is_directory = λ s path. is_member s.0 path;
  is_other = λ s path. is_member s.1 path;
  mkdir = λ s path.
      if is_member s.0 path
      then (exists, s)
      else if is_member s.1 path
      then (exists, s)
      else (created, (path ∷ s.0, s.1));
}

abbrev Answer : Type 0
Answer = MkdirResult × (List (List ℕ) × List (List ℕ))

abbrev logs : List ℕ
logs = ascii "/var/log/aicam"

parent_of_file : parent_path (ascii "/var/log/aicam/events.jsonl") ≡ logs
unfolding parent_path
parent_of_file = refl

parent_of_name : parent_path (ascii "events.jsonl") ≡ ascii "."
unfolding parent_path
parent_of_name = refl

made_in_order :
    (ensure_directory listed (ascii "/var/" ∷ [], []) logs).1
    ≡ (logs ∷ ascii "/var/log/" ∷ ascii "/var/" ∷ [], [])
unfolding ensure_directory
made_in_order = refl

-- Where a file stands in the place of the directory, the answer is true, and there is no directory.
file_in_the_way :
    (ensure_directory listed (ascii "/var/" ∷ ascii "/var/log/" ∷ [], logs ∷ []) logs)
    ≡ (true, (ascii "/var/" ∷ ascii "/var/log/" ∷ [], logs ∷ []))
unfolding ensure_directory
file_in_the_way = refl

-- ===== src/FileUtils.antt =====
-- common/include/FileUtils.h: the directories of the log files. The file system is an interface: which
-- paths are directories, where something else stands, and what `mkdir` does.
pub mod Ensured
mod Tests
use edgevision_rv1126b.Prelude.{
  ℕ, suc, Bool, true, false, not, ◌&&◌, ◌||◌, List, [], ◌∷◌, ◌++◌, Option, none, some, ◌==◌,
  if◌then◌else◌, is_empty, take,
}
use edgevision_rv1126b.Text.{ascii}
use edgevision_rv1126b.AppConfig.{same_text}

-- `mkdir` returned 0, -1 with EEXIST, which any kind of file at the path gives, or -1 with another error.
pub data MkdirResult : Type 0 where
  created exists failed : MkdirResult

pub record FileSystem : Type 1 where
  pub State : Type 0
  -- `stat` finds a directory, as `directoryExists` asks.
  pub is_directory : State → List ℕ → Bool
  -- The path exists otherwise: as a file, or as a link that leads to no directory.
  pub is_other : State → List ℕ → Bool
  pub mkdir : State → List ℕ → MkdirResult × State

abbrev pub is_ok : MkdirResult → Bool
is_ok created = true
is_ok exists = true
is_ok failed = false

-- `find_last_of('/')`; `none` is `npos`.
unfoldable pub last_slash : List ℕ → Option ℕ
last_slash [] = none
last_slash (ch ∷ path) = elim (last_slash path) [
  | some i ↦ some (suc i)
  | none ↦ if ch == 47 then some 0 else none
]

unfoldable pub parent_path : List ℕ → List ℕ
unfolding last_slash
parent_path file_path = elim (last_slash file_path) [
  | none ↦ ascii "."
  | some slash ↦ if slash == 0 then ascii "/" else take slash file_path
]

module _ (fs : FileSystem) where
  -- `mkdir(path) != 0 && errno != EEXIST` is the answer false.
  unfoldable pub make : fs.State → List ℕ → Bool × fs.State
  make s path = let (result, after) = fs.mkdir s path in (is_ok result, after)

  -- `make` where the directory is not there yet.
  unfoldable pub make_missing : fs.State → List ℕ → Bool × fs.State
  unfolding make
  make_missing s path = if fs.is_directory s path then (true, s) else make s path

  -- The body of the loop once `current` has got its character; the path goes on with `rest`.
  unfoldable pub visit : fs.State → List ℕ → ℕ → List ℕ → Bool × fs.State
  unfolding make_missing
  visit s current ch rest =
      if (not (ch == 47) && not (is_empty rest)) || same_text current (ascii "/")
      then (true, s)
      else make_missing s current

  -- The loop over the characters.
  unfoldable pub walk : fs.State → List ℕ → List ℕ → Bool × fs.State
  unfolding visit
  walk s current [] = (true, s)
  walk s current (ch ∷ rest) =
      let here = current ++ ch ∷ [] in
      let (ok, after) = visit s here ch rest in
      elim ok [ true ↦ walk after here rest | false ↦ (false, after) ]

  unfoldable pub ensure_directory : fs.State → List ℕ → Bool × fs.State
  unfolding walk
  ensure_directory s path =
      if is_empty path || same_text path (ascii ".")
      then (true, s)
      else if fs.is_directory s path
      then (true, s)
      else let (ok, after) = walk s [] path in
        elim ok [ true ↦ make_missing after path | false ↦ (false, after) ]

  unfoldable pub ensure_parent_directory : fs.State → List ℕ → Bool × fs.State
  unfolding ensure_directory parent_path
  ensure_parent_directory s file_path = ensure_directory s (parent_path file_path)

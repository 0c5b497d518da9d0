-- ===== src/FileUtils/Ensured.antt =====
-- What `ensureDirectory` has made when it answers true.
use edgevision_rv1126b.Prelude.{ℕ, ◌≡◌, ◌⊎◌, Bool, true, false, List, [], ◌∷◌, ◌++◌}
use edgevision_rv1126b.Text.{ascii}
use edgevision_rv1126b.AppConfig.{same_text}
use edgevision_rv1126b.FileUtils.{created, exists, failed, FileSystem}

-- What mkdir(2) says: a directory that is reported as created is there; what is reported to exist is there,
-- not necessarily as a directory; no directory goes away, and nothing else comes.
pub record MakesDirectories (fs : FileSystem) : Type 0 where
  pub creates :
      (s : fs.State) (path : List ℕ)
      → (fs.mkdir s path).0 ≡ created
      → fs.is_directory (fs.mkdir s path).1 path ≡ true
  pub exists_already :
      (s : fs.State) (path : List ℕ)
      → (fs.mkdir s path).0 ≡ exists
      → (fs.is_directory (fs.mkdir s path).1 path ≡ true) ⊎ (fs.is_other s path ≡ true)
  pub keeps :
      (s : fs.State) (path other : List ℕ)
      → fs.is_directory s other ≡ true
      → fs.is_directory (fs.mkdir s path).1 other ≡ true
  pub no_other :
      (s : fs.State) (path other : List ℕ)
      → fs.is_other (fs.mkdir s path).1 other ≡ true
      → fs.is_other s other ≡ true

abbrev pub IsRoot : List ℕ → Type 0
IsRoot path = same_text path (ascii "/") ≡ true

module _ (fs : FileSystem) where
  -- No directory is lost between two states.
  abbrev pub Keeps : fs.State → fs.State → Type 0
  Keeps s t = (other : List ℕ) → fs.is_directory s other ≡ true → fs.is_directory t other ≡ true

  -- What is there and no directory was there before.
  abbrev pub AddsNoOther : fs.State → fs.State → Type 0
  AddsNoOther s t = (other : List ℕ) → fs.is_other t other ≡ true → fs.is_other s other ≡ true

  -- The path is a directory of `t`, or something else stood there in `s`.
  abbrev pub Stands : fs.State → List ℕ → fs.State → Type 0
  Stands s path t = (fs.is_directory t path ≡ true) ⊎ (fs.is_other s path ≡ true)

  -- Some call of `mkdir` failed.
  abbrev pub Refused : Type 0
  Refused = (s : fs.State) × (path : List ℕ) × ((fs.mkdir s path).0 ≡ failed)

  -- An answer after which `P` holds if it is true.
  pub record Step (P : fs.State → Type 0) (s : fs.State) (answer : Bool × fs.State) : Type 0 where
    pub kept : Keeps s answer.1
    pub none_added : AddsNoOther s answer.1
    pub made : answer.0 ≡ true → P answer.1
    pub refused : answer.0 ≡ false → Refused

  module _ (laws : MakesDirectories fs) where
    -- A directory, or something else that stood there in `s`, unless it is the root.
    abbrev pub IsThere : fs.State → List ℕ → fs.State → Type 0
    IsThere s path t = IsRoot path ⊎ Stands s path t

    -- Every part of `current` and `rest` that ends with a slash of `rest`.
    Parents : fs.State → List ℕ → List ℕ → fs.State → Type 0
    Parents s current rest t =
        (front back : List ℕ)
        → rest ≡ front ++ 47 ∷ back
        → IsThere s (current ++ (front ++ 47 ∷ [])) t

    -- `ensureDirectory` of a path that is neither empty nor ".".
    pub record Ensured (s : fs.State) (path : List ℕ) (answer : Bool × fs.State) : Type 0 where
      pub kept : Keeps s answer.1
      pub there : answer.0 ≡ true → Stands s path answer.1
      pub parents :
          answer.0 ≡ true
          → fs.is_directory s path ≡ false
          → (front back : List ℕ) → path ≡ front ++ 47 ∷ back
          → IsThere s (front ++ 47 ∷ []) answer.1
      pub refused : answer.0 ≡ false → Refused

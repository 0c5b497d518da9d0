-- ===== src/Detector/Labels.antt =====
-- The label file of the detector: `trim` and `loadLabels`.
pub mod Trimmed
mod Tests
use edgevision_rv1126b.Prelude.{
  ℕ, zero, suc, ◌+◌, ◌-◌, Bool, true, false, ◌||◌, List, [], ◌∷◌, ◌++◌, Option, none, some, ◌==◌,
  if◌then◌else◌, take, drop, is_empty,
}

-- One of " \t\r\n".
abbrev pub is_blank : ℕ → Bool
is_blank c = (c == 32 || c == 9) || (c == 13 || c == 10)

-- `find_first_not_of`; `none` is `npos`.
unfoldable pub find_first_not_blank : List ℕ → Option ℕ
find_first_not_blank [] = none
find_first_not_blank (c ∷ text) =
    let rest = find_first_not_blank text in
    if is_blank c then elim rest [ none ↦ none | some i ↦ some (suc i) ] else some 0

-- `find_last_not_of`.
unfoldable pub find_last_not_blank : List ℕ → Option ℕ
find_last_not_blank [] = none
find_last_not_blank (c ∷ text) = elim (find_last_not_blank text) [
  | some i ↦ some (suc i)
  | none ↦ if is_blank c then none else some 0
]

unfoldable pub trim : List ℕ → List ℕ
unfolding find_first_not_blank find_last_not_blank
trim text = elim (find_first_not_blank text) [
  | none ↦ []
  | some first ↦ elim (find_last_not_blank text) [
    | none ↦ []
    | some last ↦ take (last - first + 1) (drop first text)
  ]
]

-- The loop over the lines of the file.
unfoldable pub keep_labels : List (List ℕ) → List (List ℕ)
unfolding trim
keep_labels [] = []
keep_labels (line ∷ lines) =
    let rest = keep_labels lines in if is_empty (trim line) then rest else trim line ∷ rest

-- The lines of the file, `none` if it does not open.
unfoldable pub load_labels : List ℕ → Option (List (List ℕ)) → List (List ℕ)
unfolding keep_labels
load_labels path lines =
    if is_empty path then [] else elim lines [ none ↦ [] | some ls ↦ keep_labels ls ]

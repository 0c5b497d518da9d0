-- ===== src/Detector/Labels/Tests.antt =====
-- Lines of a label file.
use edgevision_rv1126b.Prelude.{◌≡◌, refl, [], ◌∷◌, some}
use edgevision_rv1126b.Text.{ascii}
use edgevision_rv1126b.Detector.Labels.{
  find_first_not_blank, find_last_not_blank, trim, keep_labels, load_labels,
}
use edgevision_rv1126b.Detector.Labels.Trimmed.{Trimmed, trim-Trimmed}

blank_line_skipped :
    load_labels
      (ascii "labels.txt")
      (some (ascii " traffic light" ∷ ascii "  " ∷ ascii "bus " ∷ []))
    ≡ ascii "traffic light" ∷ ascii "bus" ∷ []
unfolding load_labels keep_labels trim find_first_not_blank find_last_not_blank
blank_line_skipped = refl

trim-Trimmed_example : Trimmed (ascii " traffic light ") (trim (ascii " traffic light "))
trim-Trimmed_example = trim-Trimmed (ascii " traffic light ")

-- ===== src/Detector/Infer/Results.antt =====
-- What the results of `infer` have in common, and its calls of the runtime.
use edgevision_rv1126b.Prelude.{
  ℕ, suc, ◌≡◌, refl, sym, subst, ◌∙◌, ◌⊎◌, inl, inr, Bool, true, false, List, [], ◌∷◌, Option, none,
  some, is_empty, All, All-map, AnyOf,
}
use edgevision_rv1126b.Prelude.Int.{ℤ}
use edgevision_rv1126b.Frame.{CapturedFrame}
use edgevision_rv1126b.Ai.{Detection, AiResult}
use edgevision_rv1126b.Floats.{Floats}
use edgevision_rv1126b.Detector.Nms.Greedy.{Descending, Suppressed, apply_nms-Suppressed}
use edgevision_rv1126b.Detector.Rows.{Decoder}
use edgevision_rv1126b.Detector.Rows.Bounds.{Sound}
use edgevision_rv1126b.Detector.Setup.{RknnDetector, empty_result}
use edgevision_rv1126b.Detector.Infer.{
  RknnCall, outputs_get, outputs_release, Parsed, detected, failed,
}

abbrev pub IsMember : {A : Type 0} → List A → A → Type 0
IsMember ds d = AnyOf (λ x. x ≡ d) ds

-- The comparison `lhs.score > rhs.score` is a strict weak order on the detections, as `std::sort` wants: two
-- of them are not each before the other, and what is between two is apart from one. A NaN is not.
pub record IsWeakOrder (fl : Floats) (ds : List (Detection fl.Float)) : Type 0 where
  pub asym :
      (a b : Detection fl.Float)
      → IsMember ds a
      → IsMember ds b
      → fl.less a.score b.score ≡ true
      → fl.less b.score a.score ≡ false
  pub apart :
      (a b c : Detection fl.Float)
      → IsMember ds a
      → IsMember ds b
      → IsMember ds c
      → fl.less a.score c.score ≡ true
      → (fl.less a.score b.score ≡ true) ⊎ (fl.less b.score c.score ≡ true)

-- `std::sort` by the score, where the comparison is a strict weak order on the range: the members of the
-- range, in descending order. Of any other range nothing is said.
pub record IsSort (fl : Floats) (threshold : fl.Float) (max_results : ℤ)
    (sort : List (Detection fl.Float) → List (Detection fl.Float)) : Type 1 where
  pub descending :
      (ds : List (Detection fl.Float))
      → IsWeakOrder fl ds
      → Descending fl threshold max_results (sort ds)
  pub loses_none :
      (ds : List (Detection fl.Float))
      → IsWeakOrder fl ds
      → (P : Detection fl.Float → Type 0) → All P (sort ds)
      → All P ds
  pub adds_none :
      (ds : List (Detection fl.Float))
      → IsWeakOrder fl ds
      → (P : Detection fl.Float → Type 0) → AnyOf P (sort ds)
      → AnyOf P ds

-- How many sets of outputs the runtime hands out, and how many it gets back.
unfoldable pub gotten : List RknnCall → ℕ
gotten [] = 0
gotten (outputs_get true ∷ calls) = suc (gotten calls)
gotten (_ ∷ calls) = gotten calls

unfoldable pub released : List RknnCall → ℕ
released [] = 0
released (outputs_release ∷ calls) = suc (released calls)
released (_ ∷ calls) = released calls

abbrev pub is_some : {A : Type 0} → Option A → Bool
is_some none = false
is_some (some a) = true

All-AnyOf :
    {A : Type 0} (P : A → Type 0) (xs : List A) (a : A) → All P xs → AnyOf (λ x. x ≡ a) xs → P a
All-AnyOf P [] a h any = absurd any
All-AnyOf P (x ∷ xs) a (p, h) (inl e) = subst P e p
All-AnyOf P (x ∷ xs) a (p, h) (inr any) = All-AnyOf P xs a h any

-- A result for the frame, from the calls from `rknn_inputs_set` on.
pub record Inferred (fl : Floats) (detector : RknnDetector fl.Float) (frame : CapturedFrame)
    (dec : Decoder fl) (w h : ℕ) (is_valid : Bool) (result : AiResult fl.Float)
    (calls : List RknnCall) : Type 0 where
  pub same_frame : result.frame_sequence ≡ frame.sequence
  pub same_time : result.capture_time_us ≡ frame.capture_time_us
  pub validity : result.valid ≡ is_valid
  pub explained : result.valid ≡ false → (result.detections ≡ []) × (is_empty result.note ≡ false)
  pub selected :
      result.valid ≡ true
      → (candidates : List (Detection fl.Float)) × All (Sound fl dec w h) candidates
        × Suppressed fl candidates detector.config.nms_threshold detector.config.max_results
            result.detections
  pub all_sound : All (Sound fl dec w h) result.detections
  pub balanced : gotten calls ≡ released calls

module _ (fl : Floats) (sort : List (Detection fl.Float) → List (Detection fl.Float))
    (detector : RknnDetector fl.Float) (frame : CapturedFrame) (dec : Decoder fl) (w h : ℕ) where
  -- The early returns.
  pub failed-Inferred :
      (note : List ℕ) (calls : List RknnCall)
      → is_empty note ≡ false
      → gotten calls ≡ released calls
      → Inferred fl detector frame dec w h false (failed fl sort detector frame note) calls
  unfolding empty_result
  failed-Inferred note calls says even = record {
    same_frame = refl;
    same_time = refl;
    validity = refl;
    explained = λ e. (refl, says);
    selected = λ e. cc;
    all_sound = tt;
    balanced = even;
  }

  pub detected-Inferred :
      (parsed : Parsed fl)
      → IsSort fl detector.config.nms_threshold detector.config.max_results sort
      → IsWeakOrder fl parsed.found
      → All (Sound fl dec w h) parsed.found
      → Inferred fl detector frame dec w h true
          (detected fl sort detector frame parsed)
          (outputs_get true ∷ outputs_release ∷ [])
  unfolding detected empty_result gotten released
  detected-Inferred parsed laws order all =
      let s =
        apply_nms-Suppressed fl sort parsed.found detector.config.nms_threshold
          detector.config.max_results (laws.descending parsed.found order)
          (laws.loses_none parsed.found order) (laws.adds_none parsed.found order) in
      record {
        same_frame = refl;
        same_time = refl;
        validity = refl;
        explained = λ e. cc;
        selected = λ e. (parsed.found, all, s);
        all_sound =
            All-map _ (Sound fl dec w h) _
              (λ d any. All-AnyOf (Sound fl dec w h) parsed.found d all any) s.chosen;
        balanced = refl;
      }

-- A call before the others that neither gets outputs nor releases them.
pub Inferred-cons :
    (fl : Floats) (detector : RknnDetector fl.Float) (frame : CapturedFrame) (dec : Decoder fl)
    (w h : ℕ) (is_valid : Bool) (result : AiResult fl.Float) (call : RknnCall)
    (calls : List RknnCall)
    → gotten (call ∷ calls) ≡ gotten calls
    → released (call ∷ calls) ≡ released calls
    → Inferred fl detector frame dec w h is_valid result calls
    → Inferred fl detector frame dec w h is_valid result (call ∷ calls)
Inferred-cons fl detector frame dec w h is_valid result call calls gets releases i = record {
  same_frame = i.same_frame;
  same_time = i.same_time;
  validity = i.validity;
  explained = i.explained;
  selected = i.selected;
  all_sound = i.all_sound;
  balanced = gets ∙ i.balanced ∙ sym releases;
}

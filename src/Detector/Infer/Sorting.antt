-- ===== src/Detector/Infer/Sorting.antt =====
-- An insertion sort by descending scores, which stands for `std::sort` in the tests.
use edgevision_rv1126b.Prelude.{
  ℕ, ◌≡◌, ◌⊎◌, inl, inr, false, List, [], ◌∷◌, arith, ltb, if◌then◌else◌, All, All-map, AnyOf,
  if-intro,
}
use edgevision_rv1126b.Prelude.Int.{ℤ}
use edgevision_rv1126b.Ai.{Detection}
use edgevision_rv1126b.Floats.Samples.{whole}
use edgevision_rv1126b.Detector.Nms.Greedy.{Descending}
use edgevision_rv1126b.Detector.Infer.Results.{IsSort, IsWeakOrder}

abbrev pub insert : Detection ℕ → List (Detection ℕ) → List (Detection ℕ)
insert d [] = d ∷ []
insert d (x ∷ xs) = if ltb x.score d.score then d ∷ x ∷ xs else x ∷ insert d xs

abbrev pub sort : List (Detection ℕ) → List (Detection ℕ)
sort [] = []
sort (d ∷ ds) = insert d (sort ds)

module _ (P : Detection ℕ → Type 0) where
  insert-All : (d : Detection ℕ) (xs : List (Detection ℕ)) → P d → All P xs → All P (insert d xs)
  insert-All d [] p h = (p, tt)
  insert-All d (x ∷ xs) p (q, h) =
      if-intro (All P) (ltb x.score d.score) (λ t. (p, (q, h))) (λ f. (q, insert-All d xs p h))

  All-insert : (d : Detection ℕ) (xs : List (Detection ℕ)) → All P (insert d xs) → P d × All P xs
  All-insert d [] h = h
  All-insert d (x ∷ xs) h =
      if-intro (λ ys. All P ys → P d × (P x × All P xs)) (ltb x.score d.score) (λ t k. k)
        (λ f k. let (p, hs) = All-insert d xs k.1 in (p, (k.0, hs))) h

  AnyOf-insert :
      (d : Detection ℕ) (xs : List (Detection ℕ)) → AnyOf P (insert d xs) → P d ⊎ AnyOf P xs
  AnyOf-insert d [] h = h
  AnyOf-insert d (x ∷ xs) h =
      if-intro (λ ys. AnyOf P ys → P d ⊎ (P x ⊎ AnyOf P xs)) (ltb x.score d.score) (λ t k. k)
        (λ f k. elim k [
          | inl q ↦ inr (inl q)
          | inr r ↦ elim (AnyOf-insert d xs r) [ inl p ↦ inl p | inr s ↦ inr (inr s) ]
        ])
        h

  All-sort : (ds : List (Detection ℕ)) → All P (sort ds) → All P ds
  All-sort [] h = h
  All-sort (d ∷ ds) h = let (p, hs) = All-insert d (sort ds) h in (p, All-sort ds hs)

  AnyOf-sort : (ds : List (Detection ℕ)) → AnyOf P (sort ds) → AnyOf P ds
  AnyOf-sort [] h = h
  AnyOf-sort (d ∷ ds) h = elim (AnyOf-insert d (sort ds) h) [
    | inl p ↦ inl p
    | inr s ↦ inr (AnyOf-sort ds s)
  ]

module _ (threshold : ℕ) (max_results : ℤ) where
  Descends : List (Detection ℕ) → Type 0
  Descends = Descending whole threshold max_results

  Descending-insert :
      (d : Detection ℕ) (xs : List (Detection ℕ)) → Descends xs → Descends (insert d xs)
  unfolding Descends
  Descending-insert d [] h = (tt, tt)
  Descending-insert d (x ∷ xs) (below, h) =
      if-intro Descends (ltb x.score d.score)
        (λ higher. ((ground arith, All-map _ _ xs (λ s low. ground arith) below), (below, h)))
        (λ lower. (
          insert-All (λ s. ltb x.score s.score ≡ false) d xs lower below,
          Descending-insert d xs h,
        ))

  Descending-sort : (ds : List (Detection ℕ)) → Descends (sort ds)
  unfolding Descends
  Descending-sort [] = tt
  Descending-sort (d ∷ ds) = Descending-insert d (sort ds) (Descending-sort ds)

  pub sort-IsSort : IsSort whole threshold max_results sort
  unfolding Descends
  sort-IsSort = record {
    descending = λ ds order. Descending-sort ds;
    loses_none = λ ds order P. All-sort P ds;
    adds_none = λ ds order P. AnyOf-sort P ds;
  }

-- Whole numbers can always be sorted.
pub whole-IsWeakOrder : (ds : List (Detection ℕ)) → IsWeakOrder whole ds
whole-IsWeakOrder ds = record {
  asym = λ a b p q less. ground arith;
  apart = λ a b c p q r less. ground arith;
}

-- ===== src/NewestQueue.antt =====
-- What both frame buffers of the camera process promise: a first-in first-out queue of at most
-- `cap` items that throws its oldest items away to make room for a new one.
use edgevision_rv1126b.Prelude.{
  ℕ, suc, ◌-◌, ◌≤◌, ◌<◌, ◌≡◌, List, [], ◌∷◌, ◌++◌, Option, none, some, arith, length, drop, All,
  All-append, All-drop, length-append, length-drop, drop-append_of_le,
}

module _ {ℓ} {A : Type ℓ} where
  -- Only the newest `cap` items stay.
  unfoldable pub newest : ℕ → List A → List A
  newest cap xs = drop (length xs - cap) xs

  unfoldable pub enqueue : ℕ → List A → A → List A
  unfolding newest
  enqueue cap xs x = newest cap (xs ++ x ∷ [])

  unfoldable pub dequeue : List A → Option (A × List A)
  dequeue [] = none
  dequeue (x ∷ xs) = some (x, xs)

  pub length-newest : (cap : ℕ) (xs : List A) → length (newest cap xs) ≤ cap
  unfolding newest
  length-newest cap xs = omega (arith, length-drop (length xs - cap) xs)

  pub enqueue_room :
      (cap : ℕ) (xs : List A) (x : A) → length xs < cap → enqueue cap xs x ≡ xs ++ x ∷ []
  unfolding enqueue
  enqueue_room cap xs x h = rw none_over
    where
      none_over : length (xs ++ x ∷ []) - cap ≡ 0
      none_over = omega (arith, length-append xs (x ∷ []))

  pub enqueue_full :
      (cap : ℕ) (y : A) (ys : List A) (x : A)
      → suc (length ys) ≡ cap
      → enqueue cap (y ∷ ys) x ≡ ys ++ x ∷ []
  unfolding enqueue
  enqueue_full cap y ys x h = rw one_over
    where
      one_over : length (y ∷ ys ++ x ∷ []) - cap ≡ 1
      one_over = omega (arith, length-append ys (x ∷ []))

  pub newest_fits : (cap : ℕ) (xs : List A) → length xs ≤ cap → newest cap xs ≡ xs
  unfolding newest
  newest_fits cap xs h = rw none_over
    where
      none_over : length xs - cap ≡ 0
      none_over = omega arith

  pub newest-cons :
      (cap : ℕ) (x : A) (xs : List A) → cap ≤ length xs → newest cap (x ∷ xs) ≡ newest cap xs
  unfolding newest
  newest-cons cap x xs h = rw one_more
    where
      one_more : suc (length xs) - cap ≡ suc (length xs - cap)
      one_more = omega arith

  -- A new item costs one place.
  pub enqueue-newest :
      (cap : ℕ) (xs : List A) (x : A) → enqueue (suc cap) xs x ≡ newest cap xs ++ x ∷ []
  unfolding enqueue newest
  enqueue-newest cap xs x = rw over (drop-append_of_le (length xs - cap) xs (x ∷ []) (omega arith))
    where
      over : length (xs ++ x ∷ []) - suc cap ≡ length xs - cap
      over = omega (arith, length-append xs (x ∷ []))

  -- What holds of the old items and of the new one holds of those that stay.
  pub All-enqueue {κ} :
      (P : A → Type κ) (cap : ℕ) (xs : List A) (x : A) → All P xs → P x → All P (enqueue cap xs x)
  unfolding enqueue newest
  All-enqueue P cap xs x h p =
      All-drop P (length (xs ++ x ∷ []) - cap) (xs ++ x ∷ []) (All-append P xs (x ∷ []) h (p, tt))

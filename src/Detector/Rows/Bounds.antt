-- ===== src/Detector/Rows/Bounds.antt =====
-- The detections that a tensor gives lie in the frame.
use edgevision_rv1126b.Prelude.{
  ℕ, zero, suc, ◌+◌, ◌-◌, ◌*◌, ◌^◌, ◌≤◌, ◌<◌, ◌≡◌, refl, ap, ◌∙◌, Bool, true, false, ◌&&◌, ◌||◌,
  List, [], ◌∷◌, Option, none, some, arith, ltb, ◌==◌, if◌then◌else◌, length, All, All-append,
  if-intro, or_false,
}
use edgevision_rv1126b.Prelude.Int.{ℤ, pos, ◌-ℤ◌}
use edgevision_rv1126b.Ai.{Detection}
use edgevision_rv1126b.Floats.{Floats, FloatLaws, fmin}
use edgevision_rv1126b.Detector.Tensor.{read_tensor_value}
use edgevision_rv1126b.Detector.Tensor.Cells.{read-some}
use edgevision_rv1126b.Detector.Rows.{
  label_of, Decoder, Corners, corners_of, clamp_float, best_class, score_of, clamp_corners, place,
  decode_row, push_found, decode_rows,
}

-- Neither below the one nor above the other.
abbrev pub Between : (fl : Floats) → fl.Float → fl.Float → fl.Float → Type 0
Between fl lower upper x = (fl.less x lower ≡ false) × (fl.less upper x ≡ false)

module _ (fl : Floats) where
  -- A detection as the decoding makes it, for a frame of `w` by `h` pixels.
  pub record Sound (dec : Decoder fl) (w h : ℕ) (d : Detection fl.Float) : Type 0 where
    pub scored : fl.less d.score dec.score_threshold ≡ false
    pub wide : fl.at_most d.x2 d.x1 ≡ false
    pub high : fl.at_most d.y2 d.y1 ≡ false
    pub x1_in : Between fl (fl.of_int (pos 0)) (fl.of_int (pos (w - 1))) d.x1
    pub x2_in : Between fl (fl.of_int (pos 0)) (fl.of_int (pos (w - 1))) d.x2
    pub y1_in : Between fl (fl.of_int (pos 0)) (fl.of_int (pos (h - 1))) d.y1
    pub y2_in : Between fl (fl.of_int (pos 0)) (fl.of_int (pos (h - 1))) d.y2
    pub labelled : d.label ≡ label_of dec.labels d.class_id

module _ (fl : Floats) (laws : FloatLaws fl) where
  clamp_float-Between :
      (x lower upper : fl.Float)
      → fl.less upper lower ≡ false
      → Between fl lower upper (clamp_float fl x lower upper)
  clamp_float-Between x lower upper ordered =
      if-intro (Between fl lower upper) (fl.less lower (fmin fl x upper))
        (λ above. (laws.asym lower (fmin fl x upper) above, min_le))
        (λ below. (laws.irrefl lower, ordered))
    where
      min_le : fl.less upper (fmin fl x upper) ≡ false
      min_le =
          if-intro (λ m. fl.less upper m ≡ false) (fl.less upper x) (λ over. laws.irrefl upper)
            (λ under. under)

  -- What a row gives.
  abbrev pub SoundRow : Decoder fl → ℕ → ℕ → Option (Detection fl.Float) → Type 0
  SoundRow dec w h none = Unit {0}
  SoundRow dec w h (some d) = Sound fl dec w h d

  less_one : (n : ℕ) → 0 < n → pos n -ℤ pos 1 ≡ pos (n - 1)
  unfolding ◌-ℤ◌
  less_one n h = ground arith

  InFrame : ℕ → ℕ → Corners fl → Type 0
  InFrame w h c =
      (Between fl (fl.of_int (pos 0)) (fl.of_int (pos (w - 1))) c.x1
        × Between fl (fl.of_int (pos 0)) (fl.of_int (pos (w - 1))) c.x2)
      × (Between fl (fl.of_int (pos 0)) (fl.of_int (pos (h - 1))) c.y1
          × Between fl (fl.of_int (pos 0)) (fl.of_int (pos (h - 1))) c.y2)

  -- A coordinate between the edges of `n` pixels.
  along :
      (n : ℕ) (size : ℤ) (x : fl.Float)
      → size ≡ pos n
      → 0 < n
      → Between fl
          (fl.of_int (pos 0))
          (fl.of_int (pos (n - 1)))
          (clamp_float fl x (fl.of_int (pos 0)) (fl.of_int (size -ℤ pos 1)))
  along n size x e pos_n =
      let last = ap (λ z. fl.of_int z) (ap (λ z. z -ℤ pos 1) e ∙ less_one n pos_n) in
      rw last (
        clamp_float-Between x (fl.of_int (pos 0)) (fl.of_int (pos (n - 1)))
          (laws.of_int_mono 0 (n - 1) (omega arith)))

  clamp_corners-InFrame :
      (dec : Decoder fl) (w h : ℕ) (corners : Corners fl)
      → dec.frame_width ≡ pos w
      → dec.frame_height ≡ pos h
      → 0 < w
      → 0 < h
      → InFrame w h (clamp_corners fl dec corners)
  unfolding clamp_corners InFrame
  clamp_corners-InFrame dec w h corners ew eh hw hh = (
    (along w dec.frame_width corners.x1 ew hw, along w dec.frame_width corners.x2 ew hw),
    (along h dec.frame_height corners.y1 eh hh, along h dec.frame_height corners.y2 eh hh),
  )

  place-SoundRow :
      (dec : Decoder fl) (w h : ℕ) (score : fl.Float) (class_id : ℤ) (corners : Corners fl)
      → InFrame w h corners
      → fl.less score dec.score_threshold ≡ false
      → SoundRow dec w h (place fl dec score class_id corners)
  unfolding place InFrame
  place-SoundRow dec w h score class_id corners ((x1, x2), (y1, y2)) scored =
      if-intro (SoundRow dec w h)
        (fl.at_most corners.x2 corners.x1 || fl.at_most corners.y2 corners.y1) (λ flat. tt)
        (λ area.
          let (wide, high) = or_false _ _ area in
          record {
            scored = scored;
            wide = wide;
            high = high;
            x1_in = x1;
            x2_in = x2;
            y1_in = y1;
            y2_in = y2;
            labelled = refl;
          })

  best_class-some :
      (read : ℕ → Option fl.Float) (first n attr k : ℕ) (best : fl.Float) (best_id : ℕ)
      → ((a : ℕ) → a < k → (x : fl.Float) × (read a ≡ some x))
      → attr + n ≤ k
      → (r : fl.Float × ℕ) × (best_class fl read first n attr best best_id ≡ some r)
  unfolding best_class
  best_class-some read first zero attr k best best_id reads le = ((best, best_id), refl)
  best_class-some read first (suc n) attr k best best_id reads le =
      let (x, e) = reads attr (omega arith) in
      rw (e, best_class)
        (by_test x (fl.less best x)
          (best_class-some read first n (attr + 1) k x (attr - first) reads (omega arith))
          (best_class-some read first n (attr + 1) k best best_id reads (omega arith)))
    where
      by_test :
          (x : fl.Float) (b : Bool)
          → ((r : fl.Float × ℕ) × (best_class fl read first n (attr + 1) x (attr - first) ≡ some r))
          → ((r : fl.Float × ℕ) × (best_class fl read first n (attr + 1) best best_id ≡ some r))
          → (r : fl.Float × ℕ) × (elim b [
            | true ↦ best_class fl read first n (attr + 1) x (attr - first)
            | false ↦ best_class fl read first n (attr + 1) best best_id
          ]
              ≡ some r)
      by_test x true p q = p
      by_test x false p q = q

  score_of-some :
      (dec : Decoder fl) (read : ℕ → Option fl.Float) (k : ℕ)
      → ((a : ℕ) → a < k → (x : fl.Float) × (read a ≡ some x))
      → 6 ≤ k
      → (r : fl.Float × ℤ) × (score_of fl dec read k ≡ some r)
  unfolding score_of
  score_of-some dec read k reads le =
      let (x4, e4) = reads 4 (omega arith) in
      let (x5, e5) = reads 5 (omega arith) in
      let ((best5, id5), f5) =
        best_class-some read 5 (k - 5) 5 k fl.minus_infinity 0 reads (omega arith) in
      let ((best4, id4), f4) =
        best_class-some read 4 (k - 4) 4 k fl.minus_infinity 0 reads (omega arith) in
      if-intro Scores (k == 5) (λ t. ((x4, pos 0), rw e4 refl))
        (λ n5.
          if-intro Scores (k == 6) (λ t. ((x4, fl.round_int x5), rw (e4, e5) refl))
            (λ n6.
              if-intro Scores (dec.has_objectness && ltb 5 k)
                (λ t. ((fl.times x4 best5, pos id5), rw (e4, f5) refl))
                (λ n. ((best4, pos id4), rw f4 refl))))
    where
      Scores : Option (fl.Float × ℤ) → Type 0
      Scores o = (r : fl.Float × ℤ) × (o ≡ some r)

  decode_row-SoundRow :
      (dec : Decoder fl) (w h : ℕ) (read : ℕ → Option fl.Float) (k : ℕ)
      → dec.frame_width ≡ pos w
      → dec.frame_height ≡ pos h
      → 0 < w
      → 0 < h
      → ((a : ℕ) → a < k → (x : fl.Float) × (read a ≡ some x))
      → 6 ≤ k
      → (found : Option (Detection fl.Float)) × (decode_row fl dec read k ≡ some found)
        × SoundRow dec w h found
  unfolding decode_row
  decode_row-SoundRow dec w h read k ew eh hw hh reads le =
      let (b0, e0) = reads 0 (omega arith) in
      let (b1, e1) = reads 1 (omega arith) in
      let (b2, e2) = reads 2 (omega arith) in
      let (b3, e3) = reads 3 (omega arith) in
      let ((score, class_id), es) = score_of-some dec read k reads le in
      let corners = clamp_corners fl dec (corners_of fl dec b0 b1 b2 b3) in
      (
        if fl.less score dec.score_threshold then none else place fl dec score class_id corners,
        rw (e0, e1, e2, e3, es) refl,
        if-intro (SoundRow dec w h) (fl.less score dec.score_threshold) (λ low. tt)
            (λ scored.
              place-SoundRow dec w h score class_id corners
                (clamp_corners-InFrame dec w h (corners_of fl dec b0 b1 b2 b3) ew eh hw hh) scored),
      )

  push_found-All :
      (ds : List (Detection fl.Float)) (dec : Decoder fl) (w h : ℕ)
      (found : Option (Detection fl.Float))
      → All (Sound fl dec w h) ds
      → SoundRow dec w h found
      → All (Sound fl dec w h) (push_found fl ds found)
  push_found-All ds dec w h none all s = all
  push_found-All ds dec w h (some d) all s = All-append _ ds (d ∷ []) all (s, tt)

  pub decode_rows-All :
      (dec : Decoder fl) (w h : ℕ) (values : List fl.Float) (n k : ℕ) (attr_major : Bool)
      (m row : ℕ) (ds : List (Detection fl.Float))
      → dec.frame_width ≡ pos w
      → dec.frame_height ≡ pos h
      → 0 < w
      → 0 < h
      → 6 ≤ k
      → n * k ≤ length values
      → length values < 2 ^ 31
      → row + m ≤ n
      → All (Sound fl dec w h) ds
      → (result : List (Detection fl.Float)) × (decode_rows fl dec values n k attr_major m row ds
          ≡ some result)
        × All (Sound fl dec w h) result
  unfolding decode_rows
  decode_rows-All dec w h values n k attr_major zero row ds ew eh hw hh le size lt rows all =
      (ds, refl, all)
  decode_rows-All dec w h values n k attr_major (suc m) row ds ew eh hw hh le size lt rows all =
      let (found, e, s) =
        decode_row-SoundRow dec w h (λ attr. read_tensor_value values n k attr_major row attr) k ew
          eh hw hh
          (λ attr ha. read-some fl.Float values n k row attr attr_major size lt (omega arith) ha)
          le in
      let (result, e', all') =
        decode_rows-All dec w h values n k attr_major m (row + 1) (push_found fl ds found) ew eh hw
          hh le size lt (omega arith) (push_found-All ds dec w h found all s) in
      (result, rw e e', all')

-- The loop over the rows of a tensor with all its cells and at least six attributes never reads
-- outside of it; and each detection that it adds has a score not below the threshold, corners within
-- the frame, a positive width and height as `<=` sees them, and the label of its class.
pub decode_rows-Sound :
    (fl : Floats) (dec : Decoder fl) (w h : ℕ) (values : List fl.Float) (n k : ℕ)
    (attr_major : Bool)
    → FloatLaws fl
    → dec.frame_width ≡ pos w
    → dec.frame_height ≡ pos h
    → 0 < w
    → 0 < h
    → 6 ≤ k
    → n * k ≤ length values
    → length values < 2 ^ 31
    → (result : List (Detection fl.Float)) × (decode_rows fl dec values n k attr_major n 0 []
        ≡ some result)
      × All (Sound fl dec w h) result
decode_rows-Sound fl dec w h values n k attr_major laws ew eh hw hh le size lt =
    decode_rows-All fl laws dec w h values n k attr_major n 0 [] ew eh hw hh le size lt
      (omega arith) tt

-- ===== src/Overlay/Rings.antt =====
-- `drawRectangleY`: the rings of a rectangle, and that they are its border.
use native.Mathlib.Nat.{mul-le-mul_right}
use edgevision_rv1126b.Prelude.{
  ℕ, zero, suc, ◌+◌, ◌-◌, ◌*◌, ◌≤◌, ◌<◌, ◌≡◌, refl, sym, ap, ap₂, ◌∙◌, Bool, true, false, ◌&&◌,
  ◌||◌, List, some, arith, ltb, leb, ◌==◌, if◌then◌else◌, length, if-intro, Bool-cases, ◌⊎◌, min,
  inl, inr,
}
use edgevision_rv1126b.Overlay.{fill_n, draw_ring, draw_rings}
use edgevision_rv1126b.Overlay.Plane.{
  Paints, nowhere, is_run, are_sides, Paints-nowhere, Paints-bind, Paints-mark, fill_n-Paints,
  draw_sides-Paints,
}

abbrev is_ring : ℕ → ℕ → ℕ → ℕ → ℕ → ℕ → Bool
is_ring top bottom left right r c =
    ((r == top || r == bottom) && (leb left c && leb c right))
    || ((leb top r && leb r bottom) && (c == left || c == right))

-- The pixel lies in the rectangle.
abbrev pub is_inside : ℕ → ℕ → ℕ → ℕ → ℕ → ℕ → Bool
is_inside top bottom left right r c = (leb top r && leb r bottom) && (leb left c && leb c right)

-- How many pixels of the rectangle lie between a pixel and the nearest edge.
abbrev pub depth : ℕ → ℕ → ℕ → ℕ → ℕ → ℕ → ℕ
depth top bottom left right r c = min (min (r - top) (bottom - r)) (min (c - left) (right - c))

-- The pixels of the rectangle on one of `rounds` rings, from the ring `offset` inwards.
abbrev pub is_border : ℕ → ℕ → ℕ → ℕ → ℕ → ℕ → ℕ → ℕ → Bool
is_border rounds offset top bottom left right r c =
    is_inside top bottom left right r c
    && (leb offset (depth top bottom left right r c)
        && ltb (depth top bottom left right r c) (offset + rounds))

-- The lower edge, which is the upper one again in a ring of one row.
lower-Paints :
    (w : ℕ) (old : List ℕ) (top bottom left right luma : ℕ)
    → left ≤ right
    → right < w
    → bottom * w + w ≤ length old
    → Paints w old
        (is_run bottom left (if bottom == top then 0 else right - left + 1))
        luma
        (if bottom == top then some old else fill_n old (bottom * w + left) (right - left + 1) luma)
lower-Paints w old top bottom left right luma hl hr size = by_test (bottom == top)
  where
    by_test :
        (test : Bool)
        → Paints w old
            (is_run bottom left (if test then 0 else right - left + 1))
            luma
            (if test then some old else fill_n old (bottom * w + left) (right - left + 1) luma)
    by_test true =
        Paints-mark w old nowhere (is_run bottom left 0) luma (some old) (λ r c lt. ground arith)
          (Paints-nowhere w old luma)
    by_test false =
        fill_n-Paints w (right - left + 1) old bottom left (bottom * w + left) luma refl
          (omega arith) size

ring_mark :
    (top bottom left right r c : ℕ)
    → top ≤ bottom
    → left ≤ right
    → (is_run top left (right - left + 1) r c
        || (is_run bottom left (if bottom == top then 0 else right - left + 1) r c
            || are_sides (bottom - top + 1) top left right r c))
      ≡ is_ring top bottom left right r c
ring_mark top bottom left right r c ht hl = ground arith

draw_ring-Paints :
    (w h : ℕ) (old : List ℕ) (top bottom left right luma : ℕ)
    → top ≤ bottom
    → bottom < h
    → left ≤ right
    → right < w
    → h * w ≤ length old
    → Paints w old (is_ring top bottom left right) luma (draw_ring old w top bottom left right luma)
unfolding draw_ring
draw_ring-Paints w h old top bottom left right luma ht hb hl hr size =
    Paints-mark w old _ (is_ring top bottom left right) luma
      (draw_ring old w top bottom left right luma)
      (λ r c lt. ring_mark top bottom left right r c ht hl)
      (Paints-bind w old (is_run top left (right - left + 1)) _ luma _ _
        (fill_n-Paints w (right - left + 1) old top left (top * w + left) luma refl (omega arith)
          (omega (arith, rows top (omega arith))))
        (λ mid same.
          Paints-bind w mid (is_run bottom left (if bottom == top then 0 else right - left + 1)) _
            luma _ _
            (lower-Paints w mid top bottom left right luma hl hr
              (omega (arith, rows bottom (omega arith))))
            (λ mid' same'.
              draw_sides-Paints w (bottom - top + 1) mid' top left right luma (omega arith) hr
                (omega (arith, rows bottom (omega arith), last_row)))))
  where
    rows : (r : ℕ) → r < h → r * w + w ≤ length old
    rows r lt = omega (arith, mul-le-mul_right w lt)

    last_row : (top + (bottom - top + 1)) * w ≡ suc bottom * w
    last_row = ap (λ k. k * w) (omega arith)

outside_ring :
    (o top bottom left right r c : ℕ)
    → is_inside top bottom left right r c ≡ false
    → top + o + o ≤ bottom
    → left + o + o ≤ right
    → is_ring (top + o) (bottom - o) (left + o) (right - o) r c ≡ false
outside_ring o top bottom left right r c h ht hl = ground arith

-- The two parts of `is_ring`, by the tests that they make.
ring_of : Bool → Bool → Bool → Bool → Bool → Bool → Bool → Bool → Bool
ring_of p q u v s t y z = ((p || q) && (u && v)) || ((s && t) && (y || z))

-- The tests in one direction, where the span is `a + b` and the position is `a` steps in.
row_tests :
    (o lo hi r : ℕ)
    → lo ≤ r
    → r ≤ hi
    → lo + o + o ≤ hi
    → ((r == lo + o) ≡ (r - lo == o))
      × ((r == hi - o) ≡ (hi - r == o))
      × (leb (lo + o) r ≡ leb o (r - lo))
      × (leb r (hi - o) ≡ leb o (hi - r))
row_tests o lo hi r h h' ho = (ground arith, ground arith, ground arith, ground arith)

ring-depth :
    (o a b x y : ℕ)
    → o + o ≤ a + b
    → o + o ≤ x + y
    → ring_of (a == o) (b == o) (leb o x) (leb o y) (leb o a) (leb o b) (x == o) (y == o)
      ≡ (min (min a b) (min x y) == o)
unfolding ring_of
ring-depth o a b x y hr hc = ground arith

inside_ring :
    (o top bottom left right r c : ℕ)
    → is_inside top bottom left right r c ≡ true
    → top + o + o ≤ bottom
    → left + o + o ≤ right
    → is_ring (top + o) (bottom - o) (left + o) (right - o) r c
      ≡ (depth top bottom left right r c == o)
unfolding ring_of
inside_ring o top bottom left right r c h ht hl =
    let (p, q, s, t) = row_tests o top bottom r (ground arith) (ground arith) ht in
    let (y, z, u, v) = row_tests o left right c (ground arith) (ground arith) hl in
    ring_of-eq p q u v s t y z
    ∙ ring-depth o (r - top) (bottom - r) (c - left) (right - c) (ground arith) (ground arith)
  where
    ring_of-eq :
        {p p' q q' u u' v v' s s' t t' y y' z z' : Bool}
        → p ≡ p'
        → q ≡ q'
        → u ≡ u'
        → v ≡ v'
        → s ≡ s'
        → t ≡ t'
        → y ≡ y'
        → z ≡ z'
        → ring_of p q u v s t y z ≡ ring_of p' q' u' v' s' t' y' z'
    ring_of-eq a b d e f g i k = cc

rounds_step :
    (d n o : ℕ)
    → ((d == o) || (leb (o + 1) d && ltb d (o + 1 + n))) ≡ (leb o d && ltb d (o + suc n))
rounds_step d n o = ground arith

border_step :
    (n o top bottom left right r c : ℕ)
    → top + o + o ≤ bottom
    → left + o + o ≤ right
    → (is_ring (top + o) (bottom - o) (left + o) (right - o) r c
        || is_border n (o + 1) top bottom left right r c)
      ≡ is_border (suc n) o top bottom left right r c
border_step n o top bottom left right r c ht hl =
    by_cases (Bool-cases (is_inside top bottom left right r c))
  where
    d : ℕ
    d = depth top bottom left right r c

    by_cases :
        (is_inside top bottom left right r c ≡ true) ⊎ (is_inside top bottom left right r c ≡ false)
        → (is_ring (top + o) (bottom - o) (left + o) (right - o) r c
            || is_border n (o + 1) top bottom left right r c)
          ≡ is_border (suc n) o top bottom left right r c
    by_cases (inl h) =
        ap₂ (λ a b. a || (b && (leb (o + 1) d && ltb d (o + 1 + n))))
          (inside_ring o top bottom left right r c h ht hl) h
        ∙ rounds_step d n o
        ∙ sym (ap (λ b. b && (leb o d && ltb d (o + suc n))) h)
    by_cases (inr h) =
        ap₂ (λ a b. a || (b && (leb (o + 1) d && ltb d (o + 1 + n))))
          (outside_ring o top bottom left right r c h ht hl) h
        ∙ sym (ap (λ b. b && (leb o d && ltb d (o + suc n))) h)

pub draw_rings-Paints :
    (w h : ℕ) (rounds o : ℕ) (old : List ℕ) (top bottom left right luma : ℕ)
    → bottom < h
    → right < w
    → h * w ≤ length old
    → Paints w old
        (is_border rounds o top bottom left right)
        luma
        (draw_rings rounds o old w top bottom left right luma)
unfolding draw_rings
draw_rings-Paints w h zero o old top bottom left right luma hb hr size =
    Paints-mark w old nowhere _ luma (some old) (λ r c lt. ground arith) (Paints-nowhere w old luma)
draw_rings-Paints w h (suc n) o old top bottom left right luma hb hr size =
    if-intro (Paints w old (is_border (suc n) o top bottom left right) luma)
      (ltb bottom (top + o + o) || ltb right (left + o + o))
      (λ empty.
        Paints-mark w old nowhere _ luma (some old) (λ r c lt. ground arith)
          (Paints-nowhere w old luma))
      (λ more.
        let ht : top + o + o ≤ bottom = ground arith in
        let hl : left + o + o ≤ right = ground arith in
        Paints-mark w old _ _ luma _ (λ r c lt. border_step n o top bottom left right r c ht hl)
          (Paints-bind w old (is_ring (top + o) (bottom - o) (left + o) (right - o)) _ luma
            (draw_ring old w (top + o) (bottom - o) (left + o) (right - o) luma)
            (λ after. draw_rings n (o + 1) after w top bottom left right luma)
            (draw_ring-Paints w h old (top + o) (bottom - o) (left + o) (right - o) luma
              (omega arith) (omega arith) (omega arith) (omega arith) size)
            (λ mid same.
              draw_rings-Paints w h n (o + 1) mid top bottom left right luma hb hr
                (omega (arith, same)))))

-- ===== src/Overlay/Rectangle.antt =====
-- `drawRectangleY`: the coordinates are clamped, and the rings of the rectangle are drawn.
use edgevision_rv1126b.Prelude.{
  ℕ, ◌-◌, ◌*◌, ◌≤◌, ◌<◌, ◌≡◌, refl, sym, ap, ◌∙◌, Bool, true, false, ◌&&◌, ◌||◌, not, List, some,
  arith, ltb, if◌then◌else◌, length, if-intro, min,
}
use edgevision_rv1126b.Prelude.Int.{ℤ, pos, negsuc, pos_part, ltb_ℤ, ◌-ℤ◌}
use edgevision_rv1126b.Overlay.{draw_rings, draw_rectangle_y, clamp_coordinate, min_ℤ, max_ℤ}
use edgevision_rv1126b.Overlay.Plane.{Paints, nowhere, Paints-nowhere, Paints-mark}
use edgevision_rv1126b.Overlay.Rings.{draw_rings-Paints, is_border}

-- A clamped coordinate is a column of the plane, or a row.
pub clamp_coordinate-pos :
    (size : ℕ) (z : ℤ)
    → 0 < size
    → clamp_coordinate z (pos 0) (pos size -ℤ pos 1) ≡ pos (min (pos_part z) (size - 1))
unfolding clamp_coordinate ◌-ℤ◌
clamp_coordinate-pos size (pos n) h = ground arith
clamp_coordinate-pos size (negsuc n) h = ground arith

abbrev pub edge : ℕ → ℤ → ℕ
edge size z = min (pos_part z) (size - 1)

-- The border of the rectangle between two corners, `thickness` pixels thick, within the plane.
abbrev pub is_rectangle : ℕ → ℕ → ℤ → ℤ → ℤ → ℤ → ℕ → ℕ → ℕ → Bool
is_rectangle w h x1 y1 x2 y2 thickness r c =
    let left = edge w (min_ℤ x1 x2) in
    let right = edge w (max_ℤ x1 x2) in
    let top = edge h (min_ℤ y1 y2) in
    let bottom = edge h (max_ℤ y1 y2) in
    (ltb left right && ltb top bottom) && is_border thickness 0 top bottom left right r c

-- The mark once the edges are known.
abbrev pub is_box : ℕ → ℕ → ℕ → ℕ → ℕ → ℕ → ℕ → Bool
is_box thickness top bottom left right r c =
    (ltb left right && ltb top bottom) && is_border thickness 0 top bottom left right r c

is_box-zero : (top bottom left right r c : ℕ) → false ≡ is_box 0 top bottom left right r c
is_box-zero top bottom left right r c = ground arith

-- `drawRectangleY` once the coordinates are clamped.
clamped-Paints :
    (w h : ℕ) (old : List ℕ) (top bottom left right thickness luma : ℕ)
    → bottom < h
    → right < w
    → h * w ≤ length old
    → Paints w old (is_box thickness top bottom left right) luma (
        if not (ltb_ℤ (pos left) (pos right)) || not (ltb_ℤ (pos top) (pos bottom))
        then some old
        else draw_rings thickness 0 old w top bottom left right luma)
clamped-Paints w h old top bottom left right thickness luma hb hr size =
    if-intro (Paints w old (is_box thickness top bottom left right) luma)
      (not (ltb_ℤ (pos left) (pos right)) || not (ltb_ℤ (pos top) (pos bottom)))
      (λ flat.
        Paints-mark w old nowhere _ luma (some old) (λ r c lt. ground arith)
          (Paints-nowhere w old luma))
      (λ proper.
        let wide : (ltb left right && ltb top bottom) ≡ true = ground arith in
        Paints-mark w old (is_border thickness 0 top bottom left right) _ luma _
          (λ r c lt. sym (ap (λ b. b && is_border thickness 0 top bottom left right r c) wide))
          (draw_rings-Paints w h thickness 0 old top bottom left right luma hb hr size))

-- The test of the dimensions, when these are positive.
no_pixels : ℕ → ℕ → ℤ → Bool
no_pixels w h thickness =
    not (ltb_ℤ (pos 0) (pos w)) || (not (ltb_ℤ (pos 0) (pos h)) || not (ltb_ℤ (pos 0) thickness))

no_pixels_lem :
    (w h : ℕ) (thickness : ℤ)
    → 0 < w
    → 0 < h
    → no_pixels w h thickness ≡ true
    → pos_part thickness ≡ 0
unfolding no_pixels
no_pixels_lem w h (pos n) hw hh e = ground arith
no_pixels_lem w h (negsuc n) hw hh e = refl

-- `drawRectangleY` on a plane of `w` times `h` pixels, whatever the corners and the thickness, never
-- writes outside of the buffer, and changes exactly the pixels that lie in the rectangle of the
-- clamped corners less than `thickness` pixels from its edge, to the luma given; it changes nothing
-- if that rectangle has no width or no height, and no byte behind the plane.
pub draw_rectangle_y-Paints :
    (w h : ℕ) (old : List ℕ) (x1 y1 x2 y2 thickness : ℤ) (luma : ℕ)
    → 0 < w
    → 0 < h
    → h * w ≤ length old
    → Paints w old
        (is_rectangle w h x1 y1 x2 y2 (pos_part thickness))
        luma
        (draw_rectangle_y old (pos w) (pos h) x1 y1 x2 y2 thickness luma)
unfolding draw_rectangle_y no_pixels
draw_rectangle_y-Paints w h old x1 y1 x2 y2 thickness luma hw hh size =
    rw
      (
        clamp_coordinate-pos w (min_ℤ x1 x2) hw,
        clamp_coordinate-pos w (max_ℤ x1 x2) hw,
        clamp_coordinate-pos h (min_ℤ y1 y2) hh,
        clamp_coordinate-pos h (max_ℤ y1 y2) hh,
        draw_rectangle_y,
      )
      (if-intro (Paints w old (is_rectangle w h x1 y1 x2 y2 (pos_part thickness)) luma)
        (no_pixels w h thickness)
        (λ none.
          let thin = no_pixels_lem w h thickness hw hh none in
          Paints-mark w old nowhere _ luma (some old)
            (λ r c lt.
              is_box-zero top bottom left right r c
              ∙ ap (λ t. is_box t top bottom left right r c) (sym thin))
            (Paints-nowhere w old luma))
        (λ thick.
          clamped-Paints w h old top bottom left right (pos_part thickness) luma (omega arith)
            (omega arith) size))
  where
    left : ℕ
    left = edge w (min_ℤ x1 x2)

    right : ℕ
    right = edge w (max_ℤ x1 x2)

    top : ℕ
    top = edge h (min_ℤ y1 y2)

    bottom : ℕ
    bottom = edge h (max_ℤ y1 y2)

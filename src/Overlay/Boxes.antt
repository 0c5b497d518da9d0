-- ===== src/Overlay/Boxes.antt =====
-- What drawing boxes can touch in a frame.
use native.Mathlib.Nat.{mul-le-mul_right, div-add-mod', mod-lt}
use edgevision_rv1126b.Prelude.{
  ℕ, ◌+◌, ◌*◌, ◌/◌, ◌%◌, ◌≤◌, ◌<◌, ◌≡◌, refl, sym, ap, ◌∙◌, ◌⊎◌, inl, inr, Bool, true, false, ◌||◌,
  not, List, Option, some, arith, if◌then◌else◌, length, get_or, dec_lt, ◌>>=◌, if-intro,
}
use edgevision_rv1126b.Prelude.Int.{ℤ, pos, pos_part, ltb_ℤ, ◌-ℤ◌, ◌+ℤ◌}
use edgevision_rv1126b.Overlay.{
  outline_luma, box_luma, min_ℤ, max_ℤ, draw_rectangle_y, draw_corners,
}
use edgevision_rv1126b.Overlay.Plane.{Painted}
use edgevision_rv1126b.Overlay.Rectangle.{edge, is_box, draw_rectangle_y-Paints}

-- `new` is `old` but for bytes among the first `size` that are now of one of the two lumas.
pub record Touched (size : ℕ) (old new : List ℕ) : Type 0 where
  pub same_length : length new ≡ length old
  pub rest : (j : ℕ) → size ≤ j → get_or new j 0 ≡ get_or old j 0
  pub lumas :
      (j : ℕ)
      → (get_or new j 0 ≡ get_or old j 0)
        ⊎ ((get_or new j 0 ≡ outline_luma) ⊎ (get_or new j 0 ≡ box_luma))

pub Touched-refl : (size : ℕ) (old : List ℕ) → Touched size old old
Touched-refl size old = record { same_length = refl; rest = λ j le. refl; lumas = λ j. inl refl }

Touched-trans :
    (size : ℕ) (old mid new : List ℕ)
    → Touched size old mid
    → Touched size mid new
    → Touched size old new
Touched-trans size old mid new t u = record {
  same_length = u.same_length ∙ t.same_length;
  rest = λ j le. u.rest j le ∙ t.rest j le;
  lumas = λ j. chain (t.lumas j) (u.lumas j);
}
  where
    chain :
        {a b c : ℕ}
        → (b ≡ a) ⊎ ((b ≡ outline_luma) ⊎ (b ≡ box_luma))
        → (c ≡ b) ⊎ ((c ≡ outline_luma) ⊎ (c ≡ box_luma))
        → (c ≡ a) ⊎ ((c ≡ outline_luma) ⊎ (c ≡ box_luma))
    chain (inl p) (inl q) = inl (q ∙ p)
    chain (inr (inl p)) (inl q) = inr (inl (q ∙ p))
    chain (inr (inr p)) (inl q) = inr (inr (q ∙ p))
    chain p (inr q) = inr q

-- A step that stays within the buffer and touches it so.
abbrev pub Touches : ℕ → List ℕ → Option (List ℕ) → Type 0
Touches size old step = (new : List ℕ) × (step ≡ some new) × Touched size old new

pub Touches-bind :
    (size : ℕ) (old : List ℕ) (step : Option (List ℕ)) (f : List ℕ → Option (List ℕ))
    → Touches size old step
    → ((mid : List ℕ) → length mid ≡ length old → Touches size mid (f mid))
    → Touches size old (step >>= f)
Touches-bind size old step f (mid, e, t) next =
    let (new, e', u) = next mid t.same_length in (new, rw e e', Touched-trans size old mid new t u)

outside_box :
    (h thickness top bottom left right r c : ℕ)
    → bottom < h
    → h ≤ r
    → is_box thickness top bottom left right r c ≡ false
outside_box h thickness top bottom left right r c hb le = ground arith

-- Any byte of the buffer is the pixel of some row.
Painted-byte :
    (w : ℕ) (old new : List ℕ) (mark : ℕ → ℕ → Bool) (luma j : ℕ)
    → 0 < w
    → Painted w old new mark luma
    → get_or new j 0 ≡ (if mark (j / w) (j % w) then luma else get_or old j 0)
Painted-byte w old new mark luma j hw p =
    ap (λ k. get_or new k 0) (sym same_index)
    ∙ p.pixels (j / w) (j % w) (mod-lt j hw)
    ∙ ap (λ k. if mark (j / w) (j % w) then luma else get_or old k 0) same_index
  where
    same_index : j / w * w + j % w ≡ j
    same_index = div-add-mod' j w

Painted-Touched :
    (w h : ℕ) (old new : List ℕ) (mark : ℕ → ℕ → Bool) (luma : ℕ)
    → 0 < w
    → (luma ≡ outline_luma) ⊎ (luma ≡ box_luma)
    → ((r c : ℕ) → h ≤ r → mark r c ≡ false)
    → Painted w old new mark luma
    → Touched (h * w) old new
Painted-Touched w h old new mark luma hw either above p = record {
  same_length = p.same_length;
  rest = λ j le.
      Painted-byte w old new mark luma j hw p
      ∙ ap (λ b. if b then luma else get_or old j 0) (p_rest j le);
  lumas = λ j. by_mark (mark (j / w) (j % w)) (Painted-byte w old new mark luma j hw p);
}
  where
    p_rest : (j : ℕ) → h * w ≤ j → mark (j / w) (j % w) ≡ false
    p_rest j le = elim (dec_lt (j / w) h) [
      | yes lt ↦ absurd (omega (arith, mul-le-mul_right w lt, div-add-mod' j w, mod-lt j hw))
      | no ge ↦ above (j / w) (j % w) (omega arith)
    ]

    by_mark :
        {a b : ℕ} (m : Bool)
        → b ≡ (if m then luma else a)
        → (b ≡ a) ⊎ ((b ≡ outline_luma) ⊎ (b ≡ box_luma))
    by_mark true e = inr (by_luma either e)
      where
        by_luma :
            {b : ℕ}
            → (luma ≡ outline_luma) ⊎ (luma ≡ box_luma)
            → b ≡ luma
            → (b ≡ outline_luma) ⊎ (b ≡ box_luma)
        by_luma (inl l) e = inl (e ∙ l)
        by_luma (inr l) e = inr (e ∙ l)
    by_mark false e = inl e

draw_rectangle_y-Touches :
    (w h : ℕ) (old : List ℕ) (x1 y1 x2 y2 thickness : ℤ) (luma : ℕ)
    → 0 < w
    → 0 < h
    → (luma ≡ outline_luma) ⊎ (luma ≡ box_luma)
    → h * w ≤ length old
    → Touches (h * w) old (draw_rectangle_y old (pos w) (pos h) x1 y1 x2 y2 thickness luma)
draw_rectangle_y-Touches w h old x1 y1 x2 y2 thickness luma hw hh either size =
    let (new, e, p) = draw_rectangle_y-Paints w h old x1 y1 x2 y2 thickness luma hw hh size in
    (
      new,
      e,
      Painted-Touched w h old new _ luma hw either
          (λ r c le.
            outside_box h (pos_part thickness) (edge h (min_ℤ y1 y2)) (edge h (max_ℤ y1 y2))
              (edge w (min_ℤ x1 x2)) (edge w (max_ℤ x1 x2)) r c (omega arith) le)
          p,
    )

pub draw_corners-Touches :
    (w h : ℕ) (old : List ℕ) (thickness outline x1 y1 x2 y2 : ℤ)
    → 0 < w
    → 0 < h
    → h * w ≤ length old
    → Touches (h * w) old (draw_corners old (pos w) (pos h) thickness outline x1 y1 x2 y2)
unfolding draw_corners
draw_corners-Touches w h old thickness outline x1 y1 x2 y2 hw hh size =
    if-intro (Touches (h * w) old) (not (ltb_ℤ x1 x2) || not (ltb_ℤ y1 y2))
      (λ flat. (old, refl, Touched-refl (h * w) old))
      (λ proper.
        Touches-bind (h * w) old
          (draw_rectangle_y old (pos w) (pos h) (x1 -ℤ pos 1) (y1 -ℤ pos 1) (x2 +ℤ pos 1)
            (y2 +ℤ pos 1) outline outline_luma)
          (λ outlined. draw_rectangle_y outlined (pos w) (pos h) x1 y1 x2 y2 thickness box_luma)
          (draw_rectangle_y-Touches w h old (x1 -ℤ pos 1) (y1 -ℤ pos 1) (x2 +ℤ pos 1) (y2 +ℤ pos 1)
            outline outline_luma hw hh (inl refl) size)
          (λ mid same.
            draw_rectangle_y-Touches w h mid x1 y1 x2 y2 thickness box_luma hw hh (inr refl)
              (omega (arith, same))))

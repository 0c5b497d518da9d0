-- ===== src/Overlay/Plane.antt =====
-- Pixels of the Y plane: where a pixel stands among the bytes, and what the loops paint.
use native.Mathlib.Nat.{mul-le-mul_right}
use edgevision_rv1126b.Prelude.{
  ℕ, zero, suc, ◌+◌, ◌*◌, ◌≤◌, ◌<◌, ◌≡◌, ◌≢◌, refl, sym, ap, ap₂, ◌∙◌, Bool, false, ◌&&◌, ◌||◌,
  List, Option, some, arith, ltb, leb, ◌==◌, if◌then◌else◌, length, get_or, set, length-set,
  get_or-set_self, get_or-set_ne, lt→ltb, dec_lt, ℕ_discrete, ◌>>=◌,
}
use edgevision_rv1126b.Overlay.{write, fill_n, draw_sides}

-- The pixels of a row lie before those of a later row.
row_lt : (w r t : ℕ) → r < t → r * w + w ≤ t * w
row_lt w r t lt = omega (arith, mul-le-mul_right w lt)

-- The byte of a pixel tells the pixel.
same_row : (w r t c d : ℕ) → c < w → d < w → r * w + c ≡ t * w + d → r ≡ t
same_row w r t c d hc hd e = elim (dec_lt r t) [
  | yes lt ↦ absurd (omega (arith, row_lt w r t lt))
  | no ge ↦ elim (dec_lt t r) [
    | yes lt ↦ absurd (omega (arith, row_lt w t r lt))
    | no le ↦ omega arith
  ]
]

-- `new` is `old` with the pixels of the mark in one luma. Rows are not bounded here: every byte of the
-- buffer is a pixel of some row, so that nothing else has changed either.
pub record Painted (w : ℕ) (old new : List ℕ) (mark : ℕ → ℕ → Bool) (luma : ℕ) : Type 0 where
  pub same_length : length new ≡ length old
  pub pixels :
      (r c : ℕ)
      → c < w
      → get_or new (r * w + c) 0 ≡ (if mark r c then luma else get_or old (r * w + c) 0)

-- A step that stays within the buffer and paints the mark.
abbrev pub Paints : ℕ → List ℕ → (ℕ → ℕ → Bool) → ℕ → Option (List ℕ) → Type 0
Paints w old mark luma step = (new : List ℕ) × (step ≡ some new) × Painted w old new mark luma

abbrev pub either : (ℕ → ℕ → Bool) → (ℕ → ℕ → Bool) → ℕ → ℕ → Bool
either m n r c = m r c || n r c

abbrev pub nowhere : ℕ → ℕ → Bool
nowhere r c = false

pub Paints-nowhere : (w : ℕ) (old : List ℕ) (luma : ℕ) → Paints w old nowhere luma (some old)
Paints-nowhere w old luma = (old, refl, record { same_length = refl; pixels = λ r c lt. refl })

pub Paints-bind :
    (w : ℕ) (old : List ℕ) (m n : ℕ → ℕ → Bool) (luma : ℕ) (step : Option (List ℕ))
    (f : List ℕ → Option (List ℕ))
    → Paints w old m luma step
    → ((mid : List ℕ) → length mid ≡ length old → Paints w mid n luma (f mid))
    → Paints w old (either m n) luma (step >>= f)
Paints-bind w old m n luma step f (mid, e, p) next =
    let (new, e', q) = next mid p.same_length in
    (
      new,
      rw e e',
      record {
        same_length = q.same_length ∙ p.same_length;
        pixels = λ r c lt. ground (arith, p.pixels r c lt, q.pixels r c lt);
      },
    )

-- Two marks that agree on the columns of the plane paint the same.
pub Paints-mark :
    (w : ℕ) (old : List ℕ) (m n : ℕ → ℕ → Bool) (luma : ℕ) (step : Option (List ℕ))
    → ((r c : ℕ) → c < w → m r c ≡ n r c)
    → Paints w old m luma step
    → Paints w old n luma step
Paints-mark w old m n luma step same (new, e, p) = (
  new,
  e,
  record {
    same_length = p.same_length;
    pixels = λ r c lt. ground (arith, p.pixels r c lt, same r c lt);
  },
)

abbrev pub is_pixel : ℕ → ℕ → ℕ → ℕ → Bool
is_pixel row col r c = r == row && c == col

not_pixel : (w row col r c i : ℕ) → i ≡ row * w + col → i ≢ r * w + c → is_pixel row col r c ≡ false
not_pixel w row col r c i e ne = elim (ℕ_discrete r row) [
  | yes er ↦ let other : c ≢ col = λ ec. ne (e ∙ sym (ap₂ (λ k l. k * w + l) er ec)) in ground arith
  | no nr ↦ ground arith
]

write-Paints :
    (w : ℕ) (old : List ℕ) (row col i luma : ℕ)
    → i ≡ row * w + col
    → col < w
    → i < length old
    → Paints w old (is_pixel row col) luma (write old i luma)
unfolding write
write-Paints w old row col i luma e hc lt = (
  set old i luma,
  rw (lt→ltb i (length old) lt),
  record { same_length = length-set old i luma; pixels = λ r c h. pixel r c h },
)
  where
    pixel :
        (r c : ℕ)
        → c < w
        → get_or (set old i luma) (r * w + c) 0
          ≡ (if is_pixel row col r c then luma else get_or old (r * w + c) 0)
    pixel r c h = elim (ℕ_discrete i (r * w + c)) [
      | yes same ↦
          let er : r ≡ row = same_row w r row c col h hc (omega arith) in
          let ec : c ≡ col = omega (arith, ap (λ k. k * w) er) in
          ap (λ k. get_or (set old i luma) k 0) (sym same)
          ∙ get_or-set_self old i luma 0 lt
          ∙ ground arith
      | no ne ↦
          get_or-set_ne old i (r * w + c) luma 0 ne ∙ sym (rw (not_pixel w row col r c i e ne) refl)
    ]

-- `n` pixels of a row, from column `col` on.
abbrev pub is_run : ℕ → ℕ → ℕ → ℕ → ℕ → Bool
is_run row col n r c = r == row && (leb col c && ltb c (col + n))

pub fill_n-Paints :
    (w : ℕ) (n : ℕ) (old : List ℕ) (row col start luma : ℕ)
    → start ≡ row * w + col
    → col + n ≤ w
    → row * w + w ≤ length old
    → Paints w old (is_run row col n) luma (fill_n old start n luma)
unfolding fill_n
fill_n-Paints w zero old row col start luma e h lt =
    Paints-mark w old nowhere (is_run row col zero) luma (some old) (λ r c lt'. ground arith)
      (Paints-nowhere w old luma)
fill_n-Paints w (suc n) old row col start luma e h lt =
    Paints-mark w old (either (is_pixel row col) (is_run row (col + 1) n)) (is_run row col (suc n))
      luma (fill_n old start (suc n) luma) (λ r c lt'. ground arith)
      (Paints-bind w old (is_pixel row col) (is_run row (col + 1) n) luma (write old start luma) _
        (write-Paints w old row col start luma e (omega arith) (omega arith))
        (λ mid same.
          fill_n-Paints w n mid row (col + 1) (start + 1) luma (omega arith) (omega arith)
            (omega arith)))

-- Two columns, on `n` rows from `row` on.
abbrev pub are_sides : ℕ → ℕ → ℕ → ℕ → ℕ → ℕ → Bool
are_sides n row left right r c = (leb row r && ltb r (row + n)) && (c == left || c == right)

pub draw_sides-Paints :
    (w : ℕ) (n : ℕ) (old : List ℕ) (row left right luma : ℕ)
    → left < w
    → right < w
    → (row + n) * w ≤ length old
    → Paints w old (are_sides n row left right) luma (draw_sides n old w row left right luma)
unfolding draw_sides
draw_sides-Paints w zero old row left right luma hl hr lt =
    Paints-mark w old nowhere (are_sides zero row left right) luma (some old)
      (λ r c lt'. ground arith) (Paints-nowhere w old luma)
draw_sides-Paints w (suc n) old row left right luma hl hr lt =
    Paints-mark w old
      (either (is_pixel row left) (either (is_pixel row right) (are_sides n (row + 1) left right)))
      (are_sides (suc n) row left right) luma (draw_sides (suc n) old w row left right luma)
      (λ r c lt'. ground arith)
      (Paints-bind w old (is_pixel row left) _ luma (write old (row * w + left) luma) _
        (write-Paints w old row left (row * w + left) luma refl hl (omega (arith, inside)))
        (λ mid same.
          Paints-bind w mid (is_pixel row right) _ luma (write mid (row * w + right) luma) _
            (write-Paints w mid row right (row * w + right) luma refl hr (omega (arith, inside)))
            (λ mid' same'.
              draw_sides-Paints w n mid' (row + 1) left right luma hl hr (omega (arith, shifted)))))
  where
    inside : row * w + w ≤ (row + suc n) * w
    inside = row_lt w row (row + suc n) (omega arith)

    shifted : (row + 1 + n) * w ≡ (row + suc n) * w
    shifted = ap (λ k. k * w) (omega arith)

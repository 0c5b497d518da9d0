-- ===== src/RingBuffer/Window.antt =====
-- The slots between the two cursors, the oldest first.
use native.Mathlib.Nat.{mod-eq_of_lt, mod_self}
use edgevision_rv1126b.Prelude.{
  ℕ, zero, suc, ◌+◌, ◌-◌, ◌%◌, ◌<◌, ◌≡◌, refl, sym, ap, ap₂, ◌∙◌, List, [], ◌∷◌, ◌++◌, arith, ltb,
  if◌then◌else◌, get_or, set, get_or-set_ne, dec_lt,
}

-- `k` modulo `cap`, for `k` below `2 * cap`.
abbrev pub wrap : ℕ → ℕ → ℕ
wrap cap k = if ltb k cap then k else k - cap

pub mod-wrap : (cap k : ℕ) → k < cap → (k + 1) % cap ≡ wrap cap (k + 1)
mod-wrap cap k lt = elim (dec_lt (k + 1) cap) [
  | yes less ↦ mod-eq_of_lt less ∙ ground arith
  | no ge ↦ let full : k + 1 ≡ cap = omega arith in rw full (mod_self cap ∙ ground arith)
]

-- `n` slots from position `i` on.
abbrev pub window : ℕ → List (List ℕ) → ℕ → ℕ → List (List ℕ)
window cap slots zero i = []
window cap slots (suc n) i = get_or slots i [] ∷ window cap slots n (wrap cap (i + 1))

pub window_snoc :
    (cap : ℕ) (slots : List (List ℕ)) (n i : ℕ)
    → i < cap
    → n < cap
    → window cap slots (suc n) i ≡ window cap slots n i ++ get_or slots (wrap cap (i + n)) [] ∷ []
window_snoc cap slots zero i h lt = ap (λ k. get_or slots k [] ∷ []) (ground arith)
window_snoc cap slots (suc n) i h lt =
    ap (λ l. get_or slots i [] ∷ l)
      (window_snoc cap slots n (wrap cap (i + 1)) (ground arith) (omega arith)
        ∙ ap (λ k. window cap slots n (wrap cap (i + 1)) ++ get_or slots k [] ∷ []) same)
  where
    same : wrap cap (wrap cap (i + 1) + n) ≡ wrap cap (i + suc n)
    same = ground arith

-- A write just behind the window does not show in it.
pub window-set :
    (cap : ℕ) (slots : List (List ℕ)) (bytes : List ℕ) (n i : ℕ)
    → i < cap
    → n < cap
    → window cap (set slots (wrap cap (i + n)) bytes) n i ≡ window cap slots n i
window-set cap slots bytes zero i h lt = refl
window-set cap slots bytes (suc n) i h lt =
    ap₂ (λ x l. x ∷ l) (get_or-set_ne slots (wrap cap (i + suc n)) i bytes [] (ground arith))
      (ap (λ w. window cap (set slots w bytes) n (wrap cap (i + 1))) (sym same)
        ∙ window-set cap slots bytes n (wrap cap (i + 1)) (ground arith) (omega arith))
  where
    same : wrap cap (wrap cap (i + 1) + n) ≡ wrap cap (i + suc n)
    same = ground arith

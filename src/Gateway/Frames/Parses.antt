-- ===== src/Gateway/Frames/Parses.antt =====
-- The cutting of a buffer into packets as a relation, and that the loop computes it.
use edgevision_rv1126b.Prelude.{
  ℕ, zero, suc, ◌+◌, ◌≤◌, ◌<◌, ◌≡◌, refl, sym, ◌⊎◌, inl, inr, Bool, true, false, List, [], ◌∷◌,
  ◌++◌, some, arith, length, take, drop, append-nil, append_assoc, length-append, length-drop,
  drop-append_of_le, take-append_of_le, Bool-cases, le→ltb, lt→ltb, dec_lt,
}
use edgevision_rv1126b.Wire.{read_be32}
use edgevision_rv1126b.Gateway.Frames.{is_bad_size, split_frames}

-- No whole packet is there, and no length that the gateway refuses.
abbrev pub IsPartial : List ℕ → Type 0
IsPartial x = (length x < 4) ⊎ ((is_bad_size (read_be32 x) ≡ false) × (length x < 4 + read_be32 x))

-- The packets at the front of the buffer, what is left, and whether that begins with a bad length.
pub data Parses : List ℕ → List (List ℕ) → List ℕ → Bool → Type 0 where
  partial : {x : List ℕ} → IsPartial x → Parses x [] x false
  bad : {x : List ℕ} → 4 ≤ length x → is_bad_size (read_be32 x) ≡ true → Parses x [] x true
  packet :
      {x : List ℕ} {frames : List (List ℕ)} {rest : List ℕ} {invalid : Bool}
      → is_bad_size (read_be32 x) ≡ false
      → 4 + read_be32 x ≤ length x
      → Parses (drop (4 + read_be32 x) x) frames rest invalid
      → Parses x (take (read_be32 x) (drop 4 x) ∷ frames) rest invalid

-- The loop, with fuel for the length of the buffer, finds what the relation says.
pub split_frames-Parses :
    {x : List ℕ} {frames : List (List ℕ)} {rest : List ℕ} {invalid : Bool}
    → Parses x frames rest invalid
    → (fuel : ℕ) (ready : List (List ℕ)) → length x < fuel
    → split_frames fuel x ready
      ≡ some
          (record { ready_frames = ready ++ frames; recv_buffer = rest; invalid_stream = invalid })
unfolding split_frames
split_frames-Parses p zero ready lt = absurd (omega arith)
split_frames-Parses {x} (partial (inl h)) (suc fuel) ready lt = rw (lt→ltb _ _ h, append-nil ready)
split_frames-Parses {x} (partial (inr (good, h))) (suc fuel) ready lt = elim (dec_lt (length x) 4) [
  | yes s ↦ rw (lt→ltb _ _ s, append-nil ready)
  | no l ↦ rw (le→ltb (length x) 4 (omega arith), good, lt→ltb _ _ h, append-nil ready)
]
split_frames-Parses {x} (bad l b) (suc fuel) ready lt =
    rw (le→ltb (length x) 4 l, b, append-nil ready)
split_frames-Parses {x} (packet good l p) (suc fuel) ready lt =
    rw
      (
        le→ltb (length x) 4 (omega arith),
        good,
        le→ltb (length x) (4 + read_be32 x) l,
        split_frames-Parses {x = drop (4 + read_be32 x) x} p fuel
            (ready ++ take (read_be32 x) (drop 4 x) ∷ [])
            (omega (arith, length-drop (4 + read_be32 x) x)),
      )
      (rw append_assoc)

-- Every buffer is cut in one way at least.
pub record Cut (x : List ℕ) : Type 0 where
  pub frames : List (List ℕ)
  pub rest : List ℕ
  pub invalid : Bool
  pub parses : Parses x frames rest invalid

Cut-below : (bound : ℕ) (x : List ℕ) → length x < bound → Cut x
Cut-below zero x lt = absurd (omega arith)
Cut-below (suc bound) x lt = elim (dec_lt (length x) 4) [
  | yes s ↦ record { frames = []; rest = x; invalid = false; parses = partial (inl s) }
  | no l ↦ elim (Bool-cases (is_bad_size (read_be32 x))) [
    | inl b ↦ record { frames = []; rest = x; invalid = true; parses = bad (omega arith) b }
    | inr good ↦ elim (dec_lt (length x) (4 + read_be32 x)) [
      | yes s ↦ record { frames = []; rest = x; invalid = false; parses = partial (inr (good, s)) }
      | no m ↦
          let c =
            Cut-below bound (drop (4 + read_be32 x) x)
              (omega (arith, length-drop (4 + read_be32 x) x)) in
          record {
            frames = take (read_be32 x) (drop 4 x) ∷ c.frames;
            rest = c.rest;
            invalid = c.invalid;
            parses = packet good (omega arith) c.parses;
          }
    ]
  ]
]

pub cut : (x : List ℕ) → Cut x
cut x = Cut-below (length x + 1) x (omega arith)

read_be32-append : (x y : List ℕ) → 4 ≤ length x → read_be32 (x ++ y) ≡ read_be32 x
unfolding read_be32
read_be32-append (a ∷ b ∷ c ∷ d ∷ x) y h = refl
read_be32-append _ y h = absurd (omega arith)

-- The constructor `packet` with its parts named.
pub Parses-packet :
    (x : List ℕ) (n : ℕ) (first more : List ℕ) {frames : List (List ℕ)} {rest : List ℕ}
    {invalid : Bool}
    → read_be32 x ≡ n
    → is_bad_size n ≡ false
    → 4 + n ≤ length x
    → first ≡ take n (drop 4 x)
    → more ≡ drop (4 + n) x
    → Parses more frames rest invalid
    → Parses x (first ∷ frames) rest invalid
Parses-packet x n first more en good l ef em p =
    rw (ef, ← en) (packet (rw en good) (rw en l) (rw en (rw (← em) p)))

packet-append :
    (x y : List ℕ) {frames : List (List ℕ)} {rest : List ℕ} {invalid : Bool}
    → is_bad_size (read_be32 x) ≡ false
    → 4 + read_be32 x ≤ length x
    → Parses (drop (4 + read_be32 x) x ++ y) frames rest invalid
    → Parses (x ++ y) (take (read_be32 x) (drop 4 x) ∷ frames) rest invalid
packet-append x y good l p =
    Parses-packet (x ++ y) (read_be32 x) _ _ (read_be32-append x y (omega arith)) good
      (omega (arith, length-append x y))
      (rw (drop-append_of_le 4 x y (omega arith))
        (sym (take-append_of_le (read_be32 x) (drop 4 x) y (omega (arith, length-drop 4 x)))))
      (sym (drop-append_of_le (4 + read_be32 x) x y l)) p

-- Bytes that arrive later do not change what was already decided.
pub Parses-append_bad :
    {x : List ℕ} {frames : List (List ℕ)} {rest : List ℕ} {invalid : Bool}
    → Parses x frames rest invalid
    → (y : List ℕ) → invalid ≡ true
    → Parses (x ++ y) frames (rest ++ y) true
Parses-append_bad (partial h) y e = cc
Parses-append_bad {x} (bad l b) y e =
    bad (omega (arith, length-append x y)) (rw (read_be32-append x y l) b)
Parses-append_bad {x} (packet good l p) y e =
    packet-append x y good l (Parses-append_bad {x = drop (4 + read_be32 x) x} p y e)

pub Parses-append :
    {x : List ℕ} {frames : List (List ℕ)} {rest : List ℕ} {invalid : Bool}
    → Parses x frames rest invalid
    → (y : List ℕ) {frames' : List (List ℕ)} {rest' : List ℕ} {invalid' : Bool} → invalid ≡ false
    → Parses (rest ++ y) frames' rest' invalid'
    → Parses (x ++ y) (frames ++ frames') rest' invalid'
Parses-append (partial h) y e q = q
Parses-append (bad l b) y e q = cc
Parses-append {x} (packet good l p) y {frames'} {rest'} {invalid'} e q = packet-append x y good l (
    Parses-append {x = drop (4 + read_be32 x) x} p y {frames' = frames'} {rest' = rest'}
      {invalid' = invalid'} e q)

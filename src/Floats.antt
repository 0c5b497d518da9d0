-- ===== src/Floats.antt =====
-- The `float` operations that the program uses, as an interface: nothing is assumed of them but what
-- a theorem names.
pub mod Samples
use edgevision_rv1126b.Prelude.{ℕ, ◌≤◌, ◌≡◌, Bool, true, false, if◌then◌else◌}
use edgevision_rv1126b.Prelude.Int.{ℤ, pos}

pub record Floats : Type 1 where
  pub Float : Type 0
  pub of_int : ℤ → Float
  -- `static_cast<int>(std::round(x))`.
  pub round_int : Float → ℤ
  -- `static_cast<int>(x)`.
  pub trunc_int : Float → ℤ
  pub half : Float
  pub two : Float
  pub minus_infinity : Float
  pub plus : Float → Float → Float
  pub minus : Float → Float → Float
  pub times : Float → Float → Float
  pub divided : Float → Float → Float
  pub absolute : Float → Float
  -- `<` and `<=`, which are both false on a NaN.
  pub less : Float → Float → Bool
  pub at_most : Float → Float → Bool

-- `std::max` and `std::min`.
abbrev pub fmax : (fl : Floats) → fl.Float → fl.Float → fl.Float
fmax fl a b = if fl.less a b then b else a

abbrev pub fmin : (fl : Floats) → fl.Float → fl.Float → fl.Float
fmin fl a b = if fl.less b a then b else a

-- What IEEE 754 promises of `<` and of the conversion of an `int`.
pub record FloatLaws (fl : Floats) : Type 0 where
  pub irrefl : (a : fl.Float) → fl.less a a ≡ false
  pub asym : (a b : fl.Float) → fl.less a b ≡ true → fl.less b a ≡ false
  pub of_int_mono : (m n : ℕ) → m ≤ n → fl.less (fl.of_int (pos n)) (fl.of_int (pos m)) ≡ false

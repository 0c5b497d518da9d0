-- ===== src/Floats/Samples.antt =====
-- Whole numbers in the place of floats, for the tests.
use edgevision_rv1126b.Prelude.{ℕ, ◌+◌, ◌-◌, ◌*◌, ◌/◌, arith, ltb, leb}
use edgevision_rv1126b.Prelude.Int.{pos, pos_part}
use edgevision_rv1126b.Floats.{Floats, FloatLaws}

abbrev pub whole : Floats
whole = record {
  Float = ℕ;
  of_int = pos_part;
  round_int = pos;
  trunc_int = pos;
  half = 1;
  two = 2;
  minus_infinity = 0;
  plus = λ a b. a + b;
  minus = λ a b. a - b;
  times = λ a b. a * b;
  divided = λ a b. a / b;
  absolute = λ a. a;
  less = ltb;
  at_most = leb;
}

pub whole-FloatLaws : FloatLaws whole
whole-FloatLaws = record {
  irrefl = λ a. ground arith;
  asym = λ a b h. ground arith;
  of_int_mono = λ m n h. ground arith;
}

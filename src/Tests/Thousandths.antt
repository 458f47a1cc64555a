-- ===== src/Tests/Thousandths.antt =====
-- Thousandths in place of floating-point numbers, for runs at concrete inputs.
use brasil_lens_backend.Common.{Arithmetic, ℕ, ◌+◌, ◌-◌, ◌*◌, ◌/◌, ◌^◌, ltb, leb, nat_beq, true}

abbrev pub thousandths : Arithmetic ℕ
thousandths = record {
  zero = 0;
  one = 1000;
  plus = λ a b. a + b;
  minus = λ a b. a - b;
  times = λ a b. a * b / 1000;
  divide = λ a b. a * 1000 / b;
  negate = λ a. 0;
  absolute = λ a. a;
  below = ltb;
  at_least = λ a b. leb b a;
  equal = nat_beq;
  is_finite = λ a. true;
  round = λ places a. a;
  literal = λ digits places. digits * 1000 / 10 ^ places;
}

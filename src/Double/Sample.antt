-- ===== src/Double/Sample.antt =====
-- Whole numbers as a `Double`, for runs and witnesses.
use wax_system_contracts.Prelude.{ℕ, ◌+◌, ◌-◌, ◌*◌, ◌/◌, ◌^◌, ltb, leb, ◌==◌}
use wax_system_contracts.Prelude.Int.{pos, pos_part}
use wax_system_contracts.Double.{Double}

abbrev pub whole_numbers : Double ℕ
whole_numbers = record {
  of_int = pos_part;
  to_int = pos;
  literal = λ digits decimals. digits / 10 ^ decimals;
  plus = λ a b. a + b;
  minus = λ a b. a - b;
  times = λ a b. a * b;
  over = λ a b. a / b;
  negate = λ a. 0;
  power = λ a b. a ^ b;
  exp = λ a. a;
  ceil = λ a. a;
  less = ltb;
  at_most = leb;
  equal = λ a b. a == b;
}

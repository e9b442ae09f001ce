-- ===== src/Double.antt =====
-- `double`, with the operations that the contracts use. Floating point is not modelled: the type and
-- its operations are the parameter `Double`.
pub mod Sample
use wax_system_contracts.Prelude.{ℕ, Bool}
use wax_system_contracts.Prelude.Int.{ℤ}

pub record Double (D : Type 0) : Type 0 where
  -- The conversions from and to int64_t.
  pub of_int : ℤ → D
  pub to_int : D → ℤ
  -- A literal of the source: its digits, and how many of them are decimals.
  pub literal : ℕ → ℕ → D
  pub plus : D → D → D
  pub minus : D → D → D
  pub times : D → D → D
  pub over : D → D → D
  pub negate : D → D
  -- `std::pow`, `std::exp`, `std::ceil`
  pub power : D → D → D
  pub exp : D → D
  pub ceil : D → D
  -- `<`, `<=` and `==`
  pub less : D → D → Bool
  pub at_most : D → D → Bool
  pub equal : D → D → Bool

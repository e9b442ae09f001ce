-- ===== src/Powerup.antt =====
-- The resource market of contracts/eosio.system: src/powerup.cpp, with the rows that
-- include/eosio.system/eosio.system.hpp declares.
pub mod Curve
pub mod Queue
pub mod Sale
pub mod Config
pub mod Decay
pub mod Totals
pub mod Loop
pub mod Balance
pub mod Settle
pub mod Parts
pub mod Setup
pub mod Shrink
pub mod Weight
pub mod Owners
pub mod Expiry
pub mod Purchase
mod Tests
pub mod Steps
use wax_system_contracts.Prelude.{
  ℕ, zero, suc, ◌+◌, ◌*◌, ◌^◌, Bool, ◌&&◌, Option, ◌==◌, Result, err, ok,
}
use wax_system_contracts.Prelude.Int.{ℤ, pos, negsuc, ◌-ℤ◌, quot_ℤ}
use wax_system_contracts.Prelude.Scoped.{Scoped}
use wax_system_contracts.Asset.{Asset, Symbol}
use wax_system_contracts.Resources.{Resources, is_zero}

-- Times are in seconds.
pub record PowerupStateResource (D : Type 0) : Type 0 where
  pub weight : ℤ
  pub weight_ratio : ℤ
  pub assumed_stake_weight : ℤ
  pub initial_weight_ratio : ℤ
  pub target_weight_ratio : ℤ
  pub initial_timestamp : ℕ
  pub target_timestamp : ℕ
  pub exponent : D
  pub decay_secs : ℕ
  pub min_price : Asset
  pub max_price : Asset
  pub utilization : ℤ
  pub adjusted_utilization : ℤ
  pub utilization_timestamp : ℕ

pub record PowerupState (D : Type 0) : Type 0 where
  pub net : PowerupStateResource D
  pub cpu : PowerupStateResource D
  pub powerup_days : ℕ
  pub min_powerup_fee : Asset

pub record PowerupOrder : Type 0 where
  pub id : ℕ
  pub owner : ℕ
  pub net_weight : ℤ
  pub cpu_weight : ℤ
  pub expires : ℕ

-- The singleton, which exists from the first `cfgpowerup` on, the orders of scope 0 by their id, and
-- the resources of the accounts.
pub record Powerup (D : Type 0) : Type 0 where
  pub state : Option (PowerupState D)
  pub orders : Scoped PowerupOrder
  pub resources : Resources

-- The accounts and the core symbol, the key that the database offers for a new order, and the time
-- that lies some days after another.
pub record PowerupLib : Type 0 where
  pub core_symbol : Symbol
  pub self : ℕ
  pub reserve_account : ℕ
  pub fees_account : ℕ
  pub available_primary_key : Scoped PowerupOrder → ℕ
  pub add_days : ℕ → ℕ → ℕ

-- 1.0 = 10^15
abbrev pub powerup_frac : ℕ
powerup_frac = 10 ^ 15

-- `/` of two integers, which traps on zero.
unfoldable pub quotient : ℤ → ℤ → Result ℤ
quotient a (pos zero) = err "divide by zero"
quotient a (pos (suc d)) = ok (quot_ℤ a (d + 1))
quotient a (negsuc d) = ok (pos 0 -ℤ quot_ℤ a (d + 1))

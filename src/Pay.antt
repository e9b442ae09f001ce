-- ===== src/Pay.antt =====
-- The pay of producers in contracts/eosio.system: src/producer_pay.cpp, and the vote pay shares of
-- src/voting.cpp.
pub mod Shares
pub mod Buckets
pub mod Claim
pub mod Daily
pub mod Flows
pub mod Fill
pub mod Unpaid
mod Tests
use wax_system_contracts.Prelude.{ℕ, ◌*◌, ◌^◌, Bool, List}
use wax_system_contracts.Prelude.Int.{ℤ}
use wax_system_contracts.Prelude.Table.{Table}
use wax_system_contracts.Asset.{Asset, Symbol}

-- The fields of the rows that pay reads and writes; the others are about votes.
pub record ProducerInfo (D : Type 0) : Type 0 where
  pub owner : ℕ
  pub total_votes : D
  pub is_active : Bool
  pub unpaid_blocks : ℕ
  pub last_claim_time : ℕ

pub record ProducerInfo2 (D : Type 0) : Type 0 where
  pub owner : ℕ
  pub votepay_share : D
  pub last_votepay_share_update : ℕ

-- The two tables, and the fields of the global states that are about pay. Times are in microseconds.
pub record Pay (D : Type 0) : Type 0 where
  pub producers : Table (ProducerInfo D)
  pub producers2 : Table (ProducerInfo2 D)
  pub last_pervote_bucket_fill : ℕ
  pub perblock_bucket : ℤ
  pub voters_bucket : ℤ
  pub total_unpaid_blocks : ℕ
  pub thresh_activated_stake_time : ℕ
  pub total_producer_votepay_share : D
  pub last_vpay_state_update : ℕ
  pub total_vpay_share_change_rate : D

-- The accounts, and the core symbol.
pub record PayLib : Type 0 where
  pub core_symbol : Symbol
  pub self : ℕ
  pub fees_account : ℕ
  pub saving_account : ℕ
  pub voters_account : ℕ
  pub bpay_account : ℕ

-- The inline actions on eosio.token: `issue`, `transfer` and `retire`.
pub data Inline : Type 0 where
  issues : ℕ → Asset → Inline
  sends : ℕ → ℕ → Asset → Inline
  retires : Asset → Inline

abbrev pub useconds_per_day : ℕ
useconds_per_day = 24 * 3600 * 10 ^ 6

abbrev pub useconds_per_year : ℕ
useconds_per_year = 52 * 7 * 24 * 3600 * 10 ^ 6

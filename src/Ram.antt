-- ===== src/Ram.antt =====
-- The market for RAM in contracts/eosio.system: include/eosio.system/exchange_state.hpp and
-- src/exchange_state.cpp, the trades of src/delegate_bandwidth.cpp, and the supply of RAM in
-- src/eosio.system.cpp.
pub mod Exchange
pub mod Trade
pub mod Supply
pub mod Fees
pub mod Bytes
pub mod Backing
pub mod Steps
mod Tests
use wax_system_contracts.Prelude.{ℕ, ◌-◌, ◌%◌, ◌^◌, Option}
use wax_system_contracts.Prelude.Int.{ℤ, pos, negsuc}
use wax_system_contracts.Asset.{Asset, Symbol}
use wax_system_contracts.Resources.{Resources}

pub record Connector (D : Type 0) : Type 0 where
  pub balance : Asset
  pub weight : D

pub record ExchangeState (D : Type 0) : Type 0 where
  pub supply : Asset
  pub base : Connector D
  pub quote : Connector D

-- The row of `rammarket`, the fields of the global state that are about RAM, and the resources of
-- the accounts. `last_ram_increase` is a slot.
pub record Ram (D : Type 0) : Type 0 where
  pub market : Option (ExchangeState D)
  pub max_ram_size : ℕ
  pub total_ram_bytes_reserved : ℕ
  pub total_ram_stake : ℤ
  pub new_ram_per_block : ℕ
  pub last_ram_increase : ℕ
  pub resources : Resources

-- The constants `ramcore_symbol` and `ram_symbol`, the weight of a new connector, and the accounts.
pub record RamLib (D : Type 0) : Type 0 where
  pub ramcore_symbol : Symbol
  pub ram_symbol : Symbol
  pub half : D
  pub self : ℕ
  pub ram_account : ℕ
  pub ramfee_account : ℕ

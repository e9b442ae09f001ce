-- ===== src/Ram/Supply.antt =====
-- src/eosio.system.cpp: the start of the market and the supply of RAM.
use wax_system_contracts.Prelude.{
  ℕ, ◌+◌, ◌-◌, ◌*◌, ◌^◌, ◌%◌, some, Result, ok, ◌>>=◌, ◌>>◌, check, or_fail, is_none, ltb, leb,
  ◌==◌, String, if◌then◌else◌,
}
use wax_system_contracts.Prelude.Int.{ℤ, pos, ◌+ℤ◌, ◌-ℤ◌, ltb_ℤ, quot_ℤ, wrap64}
use wax_system_contracts.Asset.{Asset, Symbol, Chain, require_auth, same_symbol}
use wax_system_contracts.Ram.{ExchangeState, Ram, RamLib}
use wax_system_contracts.Prelude.Int.Uint64.{wrap_uint64}

-- The chain's error for `modify` of `end()`.
abbrev pub no_row : String
no_row = "cannot pass end iterator to modify"

-- The conversion of a uint64_t to an int64_t.
abbrev pub to_int64 : ℕ → ℤ
to_int64 n = wrap64 (pos n)

-- `free_ram`
abbrev pub free_ram : {D : Type 0} → Ram D → ℕ
free_ram s = wrap_uint64 (s.max_ram_size + 2 ^ 64 - s.total_ram_bytes_reserved)

module _ {D : Type 0} where
  -- `m.base.balance.amount += delta`
  unfoldable pub add_supply : ℤ → ExchangeState D → ExchangeState D
  add_supply delta m =
      let base = m.base in
      let balance = base.balance in
      record m {
        base = record base {
          balance = record balance { amount = wrap64 (balance.amount +ℤ delta) };
        };
      }

  unfoldable pub update_ram_supply : ℕ → Ram D → Result (Ram D)
  unfolding add_supply
  update_ram_supply slot s = if leb slot s.last_ram_increase then ok s else (do
    m ← or_fail s.market no_row
    let new_ram = (slot - s.last_ram_increase) * s.new_ram_per_block % 2 ^ 32
    ok (record s {
      max_ram_size = wrap_uint64 (s.max_ram_size + new_ram);
      market = some (add_supply (pos new_ram) m);
      last_ram_increase = slot;
    }))

  module _ (names : RamLib D) where
    unfoldable pub setram : Chain → ℕ → Ram D → Result (Ram D)
    unfolding add_supply
    setram c max_ram_size s = do
      require_auth c names.self
      check (ltb s.max_ram_size max_ram_size) "ram may only be increased"
      check (ltb max_ram_size (1024 * 1024 * 1024 * 1024 * 1024)) "ram size is unrealistic"
      check (ltb s.total_ram_bytes_reserved max_ram_size) "attempt to set max below reserved"
      let delta = wrap64 (to_int64 max_ram_size -ℤ to_int64 s.max_ram_size)
      m ← or_fail s.market no_row
      ok (record s { market = some (add_supply delta m); max_ram_size = max_ram_size })

    unfoldable pub setramrate : Chain → ℕ → ℕ → Ram D → Result (Ram D)
    setramrate c slot bytes_per_block s = do
      require_auth c names.self
      s' ← update_ram_supply slot s
      ok (record s' { new_ram_per_block = bytes_per_block })

    -- The supply of the system token is what the token contract says.
    unfoldable pub init : Chain → ℕ → Symbol → Asset → Ram D → Result (Ram D)
    init c version core system_token_supply s = do
      require_auth c names.self
      check (version == 0) "unsupported version for init action"
      check (is_none s.market) "system contract has already been initialized"
      check (same_symbol system_token_supply.symbol core)
          "specified core symbol does not exist (precision mismatch)"
      check (ltb_ℤ (pos 0) system_token_supply.amount) "system token supply must be greater than 0"
      let supply : Asset = record { amount = pos 100000000000000; symbol = names.ramcore_symbol }
      let bytes : Asset = record { amount = to_int64 (free_ram s); symbol = names.ram_symbol }
      let tokens : Asset = record { amount = quot_ℤ system_token_supply.amount 1000; symbol = core }
      ok (record s {
        market = some (record {
          supply = supply;
          base = record { balance = bytes; weight = names.half };
          quote = record { balance = tokens; weight = names.half };
        });
      })

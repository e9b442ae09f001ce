-- ===== src/Ram/Trade.antt =====
-- src/delegate_bandwidth.cpp: `buyrambytes`, `buyram` and `sellram`, with the transfers that they
-- send.
use wax_system_contracts.Prelude.{
  ℕ, ◌+◌, ◌-◌, ◌^◌, some, Result, ok, ◌>>=◌, ◌>>◌, check, or_fail, String, List, [], ◌∷◌,
  if◌then◌else◌,
}
use wax_system_contracts.Prelude.Int.{ℤ, pos, ◌+ℤ◌, ◌-ℤ◌, ltb_ℤ, leb_ℤ, quot_ℤ, wrap64}
use wax_system_contracts.Asset.{
  Asset, Symbol, AssetLib, Chain, Transfer, require_auth, same_symbol, make_asset,
}
use wax_system_contracts.Double.{Double}
use wax_system_contracts.Resources.Grants.{add_bytes, sellable, take_bytes}
use wax_system_contracts.Ram.{Ram, RamLib}
use wax_system_contracts.Prelude.Int.Uint64.{to_uint64, wrap_uint64}
use wax_system_contracts.Ram.Exchange.{direct_convert, get_bancor_input}
use wax_system_contracts.Ram.Supply.{update_ram_supply, no_row}

abbrev not_initialized : String
not_initialized = "system contract must first be initialized"

-- `.5% fee (round up)`
unfoldable pub fee_of : ℤ → ℤ
fee_of amount = quot_ℤ (wrap64 (amount +ℤ pos 199)) 200

abbrev pub sends_if_positive : ℕ → ℕ → Asset → List Transfer
sends_if_positive from to fee =
    if ltb_ℤ (pos 0) fee.amount then record { from = from; to = to; quantity = fee } ∷ [] else []

module _ {D : Type 0} (lib : AssetLib) (real : Double D) (names : RamLib D) where
  -- The symbol of the quote, which the contract takes for the system token.
  abbrev core_symbol : Ram D → Result Symbol
  core_symbol s = do m ← or_fail s.market not_initialized; ok m.quote.balance.symbol

  unfoldable pub buyram : Chain → ℕ → ℕ → ℕ → Asset → Ram D → Result (List Transfer × Ram D)
  unfolding fee_of
  buyram c slot payer receiver quant s₀ = do
    require_auth c payer
    s ← update_ram_supply slot s₀
    core ← core_symbol s
    check (same_symbol quant.symbol core) "must buy ram with core token"
    check (ltb_ℤ (pos 0) quant.amount) "must purchase a positive amount"
    let fee = record quant { amount = fee_of quant.amount }
    let quant_after_fee = record quant { amount = wrap64 (quant.amount -ℤ fee.amount) }
    market ← or_fail s.market "ram market does not exist"
    (bytes, market') ← direct_convert lib real quant_after_fee names.ram_symbol market
    check (ltb_ℤ (pos 0) bytes.amount) "must reserve a positive amount"
    ok (
      record { from = payer; to = names.ram_account; quantity = quant_after_fee }
          ∷ sends_if_positive payer names.ramfee_account fee,
      record s {
        market = some market';
        total_ram_bytes_reserved =
            wrap_uint64 (s.total_ram_bytes_reserved + to_uint64 bytes.amount);
        total_ram_stake = wrap64 (s.total_ram_stake +ℤ quant_after_fee.amount);
        resources = add_bytes core receiver bytes.amount s.resources;
      },
    )

  unfoldable pub buyrambytes : Chain → ℕ → ℕ → ℕ → ℕ → Ram D → Result (List Transfer × Ram D)
  buyrambytes c slot payer receiver bytes s = do
    m ← or_fail s.market not_initialized
    let cost = get_bancor_input real m.base.balance.amount m.quote.balance.amount (pos bytes)
    let cost_plus_fee = real.to_int (real.over (real.of_int cost) (real.literal 995 3))
    core ← core_symbol s
    quant ← make_asset lib cost_plus_fee core
    buyram c slot payer receiver quant s

  unfoldable pub sellram : Chain → ℕ → ℕ → ℤ → Ram D → Result (List Transfer × Ram D)
  unfolding fee_of
  sellram c slot account bytes s₀ = do
    require_auth c account
    s ← update_ram_supply slot s₀
    check (ltb_ℤ (pos 0) bytes) "cannot sell negative byte"
    row ← sellable account bytes s.resources
    market ← or_fail s.market no_row
    sold ← make_asset lib bytes names.ram_symbol
    core ← core_symbol s
    (tokens_out, market') ← direct_convert lib real sold core market
    check (ltb_ℤ (pos 1) tokens_out.amount) "token amount received from selling ram is too low"
    let stake = wrap64 (s.total_ram_stake -ℤ tokens_out.amount)
    check (leb_ℤ (pos 0) stake) "error, attempt to unstake more tokens than previously staked"
    fee ← make_asset lib (fee_of tokens_out.amount) core
    ok (
      record { from = names.ram_account; to = account; quantity = tokens_out }
          ∷ sends_if_positive account names.ramfee_account fee,
      record s {
        market = some market';
        total_ram_bytes_reserved =
            wrap_uint64 (s.total_ram_bytes_reserved + 2 ^ 64 - to_uint64 bytes);
        total_ram_stake = stake;
        resources = take_bytes account row bytes s.resources;
      },
    )

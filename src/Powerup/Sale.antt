-- ===== src/Powerup/Sale.antt =====
-- src/powerup.cpp: the actions `powerupexec` and `powerup`. The inline action that reports a result
-- changes no state and is left out.
use wax_system_contracts.Prelude.{
  ℕ, true, some, Result, ok, ◌>>=◌, ◌>>◌, ◌==◌, not, check, or_fail, String, if◌then◌else◌, List,
  [], ◌∷◌,
}
use wax_system_contracts.Prelude.Int.{ℤ, pos, ◌+ℤ◌, ◌-ℤ◌, ◌*ℤ◌, ltb_ℤ, leb_ℤ, quot_ℤ, wrap64}
use wax_system_contracts.Prelude.Scoped
use wax_system_contracts.Asset.{Asset, AssetLib, Chain, Transfer, require_auth, same_symbol}
use wax_system_contracts.Double.{Double}
use wax_system_contracts.Resources.{is_zero}
use wax_system_contracts.Resources.Grants.{adjust_resources}
use wax_system_contracts.Powerup.{
  PowerupStateResource, PowerupState, PowerupOrder, Powerup, PowerupLib, powerup_frac,
}
use wax_system_contracts.Powerup.Curve.{calc_powerup_fee}
use wax_system_contracts.Powerup.Queue.{Pending, process_powerup_queue}

abbrev not_initialized : String
not_initialized = "powerup hasn't been initialized"

-- The orders and the resources of the market, with both deltas at 0.
abbrev pub pending : {D : Type 0} → Powerup D → Pending
pending s = record {
  orders = s.orders;
  resources = s.resources;
  net_delta_available = pos 0;
  cpu_delta_available = pos 0;
}

module _ {D : Type 0} (real : Double D) where
  -- The lambda `process` of `powerup`: the amount, the fee so far, and the resource.
  unfoldable pub sell_fraction :
      ℤ → ℤ → PowerupStateResource D → Result (ℤ × ℤ × PowerupStateResource D)
  sell_fraction frac fee res = if is_zero frac then ok (pos 0, fee, res) else (do
    let amount = wrap64 (quot_ℤ (frac *ℤ res.weight) powerup_frac)
    check (not (is_zero res.weight)) "market doesn't have resources available"
    check (leb_ℤ (wrap64 (res.utilization +ℤ amount)) res.weight)
        "market doesn't have enough resources available"
    let f = calc_powerup_fee real res amount
    check (ltb_ℤ (pos 0) f) "calculated fee is below minimum; try powering up with more resources"
    ok (amount, wrap64 (fee +ℤ f), record res { utilization = wrap64 (res.utilization +ℤ amount) }))

module _ {D : Type 0} (names : PowerupLib) where
  unfoldable pub check_order : ℕ → ℤ → ℤ → Asset → PowerupState D → Result (Unit {0})
  check_order days net_frac cpu_frac max_payment state = do
    check (same_symbol max_payment.symbol names.core_symbol) "max_payment doesn't match core symbol"
    check (days == state.powerup_days) "days doesn't match configuration"
    check (leb_ℤ (pos 0) net_frac) "net_frac can't be negative"
    check (leb_ℤ (pos 0) cpu_frac) "cpu_frac can't be negative"
    check (leb_ℤ net_frac (pos powerup_frac)) "net can't be more than 100%"
    check (leb_ℤ cpu_frac (pos powerup_frac)) "cpu can't be more than 100%"

-- Assets of two symbols cannot be compared.
unfoldable pub check_fee : Asset → Asset → Asset → Result (Unit {0})
check_fee fee max_payment min_powerup_fee = do
  check (leb_ℤ fee.amount max_payment.amount) "max_payment is less than calculated fee"
  check (same_symbol fee.symbol min_powerup_fee.symbol)
      "comparison of assets with different symbols is not allowed"
  check (leb_ℤ min_powerup_fee.amount fee.amount)
      "calculated fee is below minimum; try powering up with more resources"

module _ {D : Type 0} (lib : AssetLib) (real : Double D) (names : PowerupLib) where
  unfoldable pub powerupexec : Chain → ℕ → ℕ → Powerup D → Result (Powerup D)
  powerupexec c user max_items s = do
    require_auth c user
    state₀ ← or_fail s.state not_initialized
    (state, p) ← process_powerup_queue lib real names c.now_sec max_items state₀ (pending s)
    resources ←
        adjust_resources lib names.core_symbol true names.reserve_account p.net_delta_available
          p.cpu_delta_available p.resources
    ok (record s { state = some state; orders = p.orders; resources = resources })

  unfoldable pub powerup :
      Chain → ℕ → ℕ → ℕ → ℤ → ℤ → Asset → Powerup D → Result (List Transfer × Powerup D)
  powerup c payer receiver days net_frac cpu_frac max_payment s = do
    require_auth c payer
    state₀ ← or_fail s.state not_initialized
    check_order names days net_frac cpu_frac max_payment state₀
    (state, p) ← process_powerup_queue lib real names c.now_sec 2 state₀ (pending s)
    (net_amount, net_fee, net) ← sell_fraction real net_frac (pos 0) state.net
    (cpu_amount, all_fees, cpu) ← sell_fraction real cpu_frac net_fee state.cpu
    let fee : Asset = record { amount = all_fees; symbol = names.core_symbol }
    check_fee fee max_payment state.min_powerup_fee
    let order : PowerupOrder = record {
      id = names.available_primary_key p.orders;
      owner = receiver;
      net_weight = net_amount;
      cpu_weight = cpu_amount;
      expires = names.add_days c.now_sec days;
    }
    granted ← adjust_resources lib names.core_symbol true receiver net_amount cpu_amount p.resources
    resources ←
        adjust_resources lib names.core_symbol true names.reserve_account
          (wrap64 (p.net_delta_available -ℤ net_amount))
          (wrap64 (p.cpu_delta_available -ℤ cpu_amount)) granted
    ok (
      record { from = payer; to = names.fees_account; quantity = fee } ∷ [],
      record s {
        state = some (record state { net = net; cpu = cpu });
        orders = Scoped.set 0 order.id order p.orders;
        resources = resources;
      },
    )

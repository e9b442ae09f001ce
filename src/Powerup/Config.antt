-- ===== src/Powerup/Config.antt =====
-- src/powerup.cpp: the action `cfgpowerup`.
use wax_system_contracts.Prelude.{
  ℕ, ◌-◌, ◌*◌, ◌^◌, Bool, true, not, ◌&&◌, ◌||◌, Option, none, some, Result, ok, ◌>>=◌, ◌>>◌, ◌==◌,
  leb, ltb, check, if◌then◌else◌, String,
}
use wax_system_contracts.Prelude.Int.{ℤ, pos, ◌*ℤ◌, ltb_ℤ, leb_ℤ}
use wax_system_contracts.Asset.{Asset, Symbol, AssetLib, Chain, require_auth, same_symbol}
use wax_system_contracts.Double.{Double}
use wax_system_contracts.Resources.{is_zero}
use wax_system_contracts.Resources.Grants.{adjust_resources}
use wax_system_contracts.Powerup.{
  PowerupStateResource, PowerupState, Powerup, PowerupLib, powerup_frac, quotient,
}
use wax_system_contracts.Powerup.Curve.{update_utilization, update_weight}

pub record PowerupConfigResource (D : Type 0) : Type 0 where
  pub current_weight_ratio : Option ℤ
  pub target_weight_ratio : Option ℤ
  pub assumed_stake_weight : Option ℤ
  pub target_timestamp : Option ℕ
  pub exponent : Option D
  pub decay_secs : Option ℕ
  pub min_price : Option Asset
  pub max_price : Option Asset

pub record PowerupConfig (D : Type 0) : Type 0 where
  pub net : PowerupConfigResource D
  pub cpu : PowerupConfigResource D
  pub powerup_days : Option ℕ
  pub min_powerup_fee : Option Asset

abbrev pub is_default_asset : Asset → Bool
is_default_asset a = is_zero a.amount && (a.symbol.code == 0 && a.symbol.precision == 0)

abbrev no_asset : Asset
no_asset = record { amount = pos 0; symbol = record { code = 0; precision = 0 } }

abbrev pub value_or : {A : Type 0} → A → Option A → A
value_or default none = default
value_or default (some a) = a

-- The value given, or the old one unless that is missing too.
abbrev given_or : {A : Type 0} → A → Bool → String → Option A → Result A
given_or old missing message none = do check (not missing) message; ok old
given_or old missing message (some a) = ok a

module _ {D : Type 0} (real : Double D) where
  abbrev pub default_resource : PowerupStateResource D
  default_resource = record {
    weight = pos 0;
    weight_ratio = pos 0;
    assumed_stake_weight = pos 0;
    initial_weight_ratio = pos powerup_frac;
    target_weight_ratio = pos (10 ^ 13);
    initial_timestamp = 0;
    target_timestamp = 0;
    exponent = real.literal 20 1;
    decay_secs = 24 * 3600;
    min_price = no_asset;
    max_price = no_asset;
    utilization = pos 0;
    adjusted_utilization = pos 0;
    utilization_timestamp = 0;
  }

  abbrev pub default_state : PowerupState D
  default_state = record {
    net = default_resource;
    cpu = default_resource;
    powerup_days = 30;
    min_powerup_fee = no_asset;
  }

  -- The time until which the weight shrinks.
  unfoldable pub target_time : ℕ → ℤ → ℤ → Option ℕ → ℕ → Result ℕ
  target_time now current target given old =
      if leb_ℤ current target && leb_ℤ target current then ok now else (do
        time ← given_or old (old == 0) "target_timestamp does not have a default value" given
        check (ltb now time) "target_timestamp must be in the future"
        ok time)

  -- The checks of the lambda `update`, on what it is about to store.
  unfoldable pub check_resource : Symbol → PowerupStateResource D → Result (Unit {0})
  check_resource core res = do
    check (ltb_ℤ (pos 0) res.initial_weight_ratio) "current_weight_ratio is too small"
    check (leb_ℤ res.initial_weight_ratio (pos powerup_frac)) "current_weight_ratio is too large"
    check (ltb_ℤ (pos 0) res.target_weight_ratio) "target_weight_ratio is too small"
    check (leb_ℤ res.target_weight_ratio res.initial_weight_ratio) "weight can't grow over time"
    check (leb_ℤ (pos 1) res.assumed_stake_weight)
        "assumed_stake_weight must be at least 1; a much larger value is recommended"
    whole ← quotient (res.assumed_stake_weight *ℤ pos powerup_frac) res.target_weight_ratio
    check (leb_ℤ whole (pos (2 ^ 63 - 1))) "assumed_stake_weight/target_weight_ratio is too large"
    check (real.at_most (real.literal 10 1) res.exponent) "exponent must be >= 1"
    check (leb 1 res.decay_secs) "decay_secs must be >= 1"
    check (same_symbol res.max_price.symbol core) "max_price doesn't match core symbol"
    check (ltb_ℤ (pos 0) res.max_price.amount) "max_price must be positive"
    check (same_symbol res.min_price.symbol core) "min_price doesn't match core symbol"
    check (leb_ℤ (pos 0) res.min_price.amount) "min_price must be non-negative"
    check (leb_ℤ res.min_price.amount res.max_price.amount) "min_price cannot exceed max_price"
    check
        (not (real.equal res.exponent (real.literal 10 1))
          || (leb_ℤ res.min_price.amount res.max_price.amount
              && leb_ℤ res.max_price.amount res.min_price.amount))
        "min_price and max_price must be the same if the exponent is 1"

  -- The lambda `update`. A default is what the source writes into an option without a value.
  unfoldable pub configure :
      Symbol
      → ℕ
      → PowerupConfigResource D
      → PowerupStateResource D
      → Result (PowerupStateResource D)
  configure core now args res = do
    let current : ℤ =
        value_or (if is_zero res.weight_ratio then res.initial_weight_ratio else res.weight_ratio)
          args.current_weight_ratio
    let target : ℤ = value_or res.target_weight_ratio args.target_weight_ratio
    stake ←
        given_or res.assumed_stake_weight (is_zero res.assumed_stake_weight)
          "assumed_stake_weight does not have a default value" args.assumed_stake_weight
    time ← target_time now current target args.target_timestamp res.target_timestamp
    max_price ←
        given_or res.max_price (is_default_asset res.max_price)
          "max_price does not have a default value" args.max_price
    let zero_price : Asset = record max_price { amount = pos 0 }
    let min_price : Asset =
        value_or (if is_default_asset res.min_price then zero_price else res.min_price)
          args.min_price
    let res' : PowerupStateResource D = record res {
      assumed_stake_weight = stake;
      initial_weight_ratio = current;
      target_weight_ratio = target;
      initial_timestamp = now;
      target_timestamp = time;
      exponent = value_or res.exponent args.exponent;
      decay_secs = value_or res.decay_secs args.decay_secs;
      min_price = min_price;
      max_price = max_price;
    }
    check_resource core res'
    ok res'

  -- The beginning of the action: the weights at this time, or the state that is the default.
  unfoldable pub start_state : ℕ → Option (PowerupState D) → Result (ℤ × ℤ × PowerupState D)
  start_state now none = ok (
    pos 0,
    pos 0,
    record default_state {
      net = record default_resource { utilization_timestamp = now };
      cpu = record default_resource { utilization_timestamp = now };
    },
  )
  start_state now (some state) = do
    (net_delta, net) ← update_weight now (pos 0) (update_utilization real now state.net)
    (cpu_delta, cpu) ← update_weight now (pos 0) (update_utilization real now state.cpu)
    ok (net_delta, cpu_delta, record state { net = net; cpu = cpu })

  -- The end of the action for a resource, with the new `delta_available`.
  unfoldable pub settle : ℕ → ℤ → PowerupStateResource D → Result (ℤ × PowerupStateResource D)
  settle now delta res₀ = do
    (delta', res) ← update_weight now delta res₀
    check (leb_ℤ res.utilization res.weight) "weight can't shrink below utilization"
    ok (
      delta',
      record res {
        adjusted_utilization =
            if ltb_ℤ res.weight res.adjusted_utilization
            then res.weight
            else res.adjusted_utilization;
      },
    )

  unfoldable pub cfgpowerup :
      AssetLib → PowerupLib → Chain → PowerupConfig D → Powerup D → Result (Powerup D)
  cfgpowerup lib names c args s = do
    require_auth c names.self
    check (c.is_account names.reserve_account) "eosio.reserv account must first be created"
    (net_delta₀, cpu_delta₀, state) ← start_state c.now_sec s.state
    let days : ℕ = value_or state.powerup_days args.powerup_days
    min_fee ←
        given_or state.min_powerup_fee (is_default_asset state.min_powerup_fee)
          "min_powerup_fee does not have a default value" args.min_powerup_fee
    check (ltb 0 days) "powerup_days must be > 0"
    check (same_symbol min_fee.symbol names.core_symbol) "min_powerup_fee doesn't match core symbol"
    check (ltb_ℤ (pos 0) min_fee.amount) "min_powerup_fee must be positive"
    net₁ ← configure names.core_symbol c.now_sec args.net state.net
    cpu₁ ← configure names.core_symbol c.now_sec args.cpu state.cpu
    (net_delta, net) ← settle c.now_sec net_delta₀ net₁
    (cpu_delta, cpu) ← settle c.now_sec cpu_delta₀ cpu₁
    resources ←
        adjust_resources lib names.core_symbol true names.reserve_account net_delta cpu_delta
          s.resources
    ok (record s {
      state =
          some (record { net = net; cpu = cpu; powerup_days = days; min_powerup_fee = min_fee });
      resources = resources;
    })

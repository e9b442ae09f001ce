-- ===== src/Powerup/Tests.antt =====
-- A run of the resource market and its theorems at concrete inputs: the market is set up at time 100
-- with a weight of 9000, and at time 200 account 6 buys all of NET for account 5.
use wax_system_contracts.Prelude.{
  ℕ, ◌+◌, ◌-◌, ◌%◌, ◌*◌, ◌^◌, ◌≡◌, ◌≤◌, max, refl, true, none, some, ok, arith, List, [], ◌∷◌,
  if◌then◌else◌,
}
use wax_system_contracts.Prelude.Int.{ℤ, pos, ◌≤ℤ◌, ◌+ℤ◌, ◌-ℤ◌, ◌*ℤ◌, wrap64, quot_ℤ}
use wax_system_contracts.Prelude.Scoped
use wax_system_contracts.Prelude.Scoped.Total.{total}
use wax_system_contracts.Prelude.Table
use wax_system_contracts.Asset.{Asset, Symbol, Chain, Transfer}
use wax_system_contracts.Asset.Sample.{sample_lib}
use wax_system_contracts.Double.Sample.{whole_numbers}
use wax_system_contracts.Resources.{
  UserResources, ResourceLimits, Resources, has_field, set_resource_limits, max_ℤ, is_zero, quota,
}
use wax_system_contracts.Resources.Grants.{
  adjust_resources, adjusted_row, check_bandwidth, write_bandwidth,
}
use wax_system_contracts.Powerup.{
  PowerupStateResource, PowerupState, PowerupOrder, Powerup, PowerupLib, powerup_frac, quotient,
}
use wax_system_contracts.Powerup.Curve.{
  update_utilization, update_weight, current_ratio, calc_powerup_fee, price_function,
  price_integral_delta,
}
use wax_system_contracts.Powerup.Queue.{
  Pending, first_expiring, return_order, take_expired, process_powerup_queue,
}
use wax_system_contracts.Powerup.Sale.{powerup, sell_fraction, check_order, check_fee}
use wax_system_contracts.Powerup.Config.{
  PowerupConfigResource, PowerupConfig, target_time, check_resource, configure, start_state, settle,
  cfgpowerup,
}
use wax_system_contracts.Powerup.Decay.{update_utilization_bounds}
use wax_system_contracts.Powerup.Totals.{net_kind, row_weight}
use wax_system_contracts.Powerup.Balance.{IsBalanced}
use wax_system_contracts.Powerup.Settle.{PowerupLaws}
use wax_system_contracts.Powerup.Steps.{powers_up, apply, apply-IsBalanced}
use wax_system_contracts.Powerup.Expiry.{count_expired, live, take_expired_drains}
use wax_system_contracts.Prelude.Int.Uint64.{to_uint64}
use wax_system_contracts.Powerup.Owners.{owned}
use wax_system_contracts.Powerup.Loop.{order_weight, delta_available}
use wax_system_contracts.Powerup.Purchase.{powerup_sound, is_covered, part_of}
use wax_system_contracts.Powerup.Weight.{cfgpowerup-IsSound, IsSound}

abbrev wax : Symbol
wax = record { code = 7; precision = 8 }

abbrev coins : ℕ → Asset
coins n = record { amount = pos n; symbol = wax }

-- The key after the last one.
unfoldable next_key : Scoped.Scoped PowerupOrder → ℕ
next_key [] = 0
next_key ((s, k, o) ∷ t) = max (k + 1) (next_key t)

above_next_key :
    (j : ℕ) (t : Scoped.Scoped PowerupOrder) → next_key t ≤ j → Scoped.find 0 j t ≡ none
unfolding next_key Scoped.find
above_next_key j [] h = refl
above_next_key j ((s, k, o) ∷ t) h = ground (arith, above_next_key j t)

abbrev names : PowerupLib
names = record {
  core_symbol = wax;
  self = 1;
  reserve_account = 80;
  fees_account = 81;
  available_primary_key = next_key;
  add_days = λ time days. time + days * 86400;
}

abbrev at_time : ℕ → Chain
at_time now = record {
  has_auth = λ n. true;
  is_account = λ n. true;
  has_permission = λ a p. true;
  now = 0;
  now_sec = now;
}

abbrev config : PowerupConfigResource ℕ
config = record {
  current_weight_ratio = some (pos (10 ^ 14));
  target_weight_ratio = some (pos (10 ^ 14));
  assumed_stake_weight = some (pos 1000);
  target_timestamp = none;
  exponent = none;
  decay_secs = none;
  min_price = none;
  max_price = some (coins 1000);
}

abbrev nobody : ResourceLimits
nobody = record { ram = pos 0; net = pos 0; cpu = pos 0 }

abbrev no_market : Powerup ℕ
no_market = record {
  state = none;
  orders = [];
  resources = record { userres = []; flags = []; limits = λ a. nobody };
}

-- A resource after the configuration, with what was sold of it by a time.
abbrev resource : ℕ → ℕ → PowerupStateResource ℕ
resource sold time = record {
  weight = pos 9000;
  weight_ratio = pos (10 ^ 14);
  assumed_stake_weight = pos 1000;
  initial_weight_ratio = pos (10 ^ 14);
  target_weight_ratio = pos (10 ^ 14);
  initial_timestamp = 100;
  target_timestamp = 100;
  exponent = 2;
  decay_secs = 86400;
  min_price = coins 0;
  max_price = coins 1000;
  utilization = pos sold;
  adjusted_utilization = pos 0;
  utilization_timestamp = time;
}

abbrev state : ℕ → ℕ → PowerupState ℕ
state net_sold time = record {
  net = resource net_sold time;
  cpu = resource 0 time;
  powerup_days = 30;
  min_powerup_fee = coins 1;
}

abbrev row : ℕ → ℕ → ℕ → UserResources
row owner net cpu = record {
  owner = owner;
  net_weight = coins net;
  cpu_weight = coins cpu;
  ram_bytes = pos 0;
}

abbrev limits : ℕ → ℕ → ResourceLimits
limits net cpu = record { ram = pos 1400; net = pos net; cpu = pos cpu }

abbrev reserved : Resources
unfolding set_resource_limits
reserved = record (set_resource_limits 80 (limits 9000 9000) no_market.resources) {
  userres = (80, 80, row 80 9000 9000) ∷ [];
}

abbrev market : Powerup ℕ
market = record { state = some (state 0 100); orders = []; resources = reserved }

abbrev both : PowerupConfig ℕ
both = record { net = config; cpu = config; powerup_days = none; min_powerup_fee = some (coins 1) }

sets_up : cfgpowerup whole_numbers sample_lib names (at_time 100) both no_market ≡ ok market
unfolding cfgpowerup start_state configure target_time check_resource settle update_weight
    current_ratio quotient adjust_resources adjusted_row check_bandwidth write_bandwidth reserved
    set_resource_limits has_field Scoped.find Scoped.set Table.find sample_lib quot_ℤ wrap64 ◌-ℤ◌
    ◌+ℤ◌ ◌*ℤ◌
sets_up = refl

cfgpowerup-IsSound_example : IsSound net_kind 500 (pos 0) (state 0 100)
cfgpowerup-IsSound_example =
    cfgpowerup-IsSound whole_numbers sample_lib names net_kind (at_time 100) both no_market market
      (state 0 100) 500 (pos 0) sets_up refl (ground arith) (ground arith)

abbrev order : PowerupOrder
order = record { id = 0; owner = 5; net_weight = pos 9000; cpu_weight = pos 0; expires = 2592200 }

abbrev granted : Resources
unfolding set_resource_limits reserved
granted =
    record (set_resource_limits 80 (limits 0 9000)
      (set_resource_limits 5 (limits 9000 0) reserved)) {
        userres = (80, 80, row 80 0 9000) ∷ (5, 5, row 5 9000 0) ∷ [];
      }

abbrev sold : Powerup ℕ
sold = record { state = some (state 9000 200); orders = (0, 0, order) ∷ []; resources = granted }

abbrev fees : List Transfer
fees = record { from = 6; to = 81; quantity = coins 500 } ∷ []

buys_all :
    powerup sample_lib whole_numbers names
      (at_time 200)
      6
      5
      30
      (pos powerup_frac)
      (pos 0)
      (coins 600)
      market
    ≡ ok (fees, sold)
unfolding powerup check_order check_fee sell_fraction calc_powerup_fee price_function
    price_integral_delta next_key process_powerup_queue take_expired first_expiring
    update_utilization update_weight current_ratio quotient adjust_resources adjusted_row
    check_bandwidth write_bandwidth reserved granted set_resource_limits has_field Scoped.find
    Scoped.set Table.find sample_lib quot_ℤ wrap64 ◌-ℤ◌ ◌+ℤ◌ ◌*ℤ◌
buys_all = refl

powerup_sound_example :
    (u : PowerupState ℕ) × (key : ℕ) × (o : PowerupOrder) × (fee : Asset) × ((at_time 200).has_auth
        6
      ≡ true)
    × (sold.state ≡ some u)
    × (Scoped.find 0 key sold.orders ≡ some o)
    × (o.owner ≡ 5)
    × (o.expires ≡ names.add_days 200 30)
    × (o.net_weight
        ≡ (if is_zero (pos powerup_frac) then pos 0 else part_of (pos powerup_frac) u.net))
    × (o.cpu_weight ≡ (if is_zero (pos 0) then pos 0 else part_of (pos 0) u.cpu))
    × (is_covered (pos powerup_frac) u.net ≡ true)
    × (is_covered (pos 0) u.cpu ≡ true)
    × (fees ≡ record { from = 6; to = names.fees_account; quantity = fee } ∷ [])
    × (u.min_powerup_fee.amount ≤ℤ fee.amount)
    × (fee.amount ≤ℤ (coins 600).amount)
powerup_sound_example =
    powerup_sound sample_lib whole_numbers names (at_time 200) 6 5 30 (pos powerup_frac) (pos 0)
      (coins 600) market sold fees buys_all

market-IsBalanced : IsBalanced net_kind 0 market
unfolding total reserved set_resource_limits Scoped.find ◌+ℤ◌
market-IsBalanced = record {
  unique = (refl, tt);
  unique_orders = tt;
  keyed = tt;
  sold = refl;
  granted = refl;
}

laws : PowerupLaws names
laws = record { key_is_free = λ t. above_next_key (next_key t) t (omega arith) }

apply-IsBalanced_example : IsBalanced net_kind 0 sold
unfolding apply
apply-IsBalanced_example =
    apply-IsBalanced sample_lib whole_numbers names laws net_kind 0 (at_time 200)
      (powers_up 6 5 30 (pos powerup_frac) (pos 0) (coins 600)) market sold fees market-IsBalanced
      buys_all

update_utilization_bounds_example :
    (adjusted : ℤ) × (update_utilization whole_numbers 300 (resource 9000 200)
      ≡ record (resource 9000 200) { adjusted_utilization = adjusted; utilization_timestamp = 300 })
    × (pos 9000 ≤ℤ adjusted)
    × (adjusted ≤ℤ max_ℤ (pos 9000) (pos 0))
update_utilization_bounds_example =
    update_utilization_bounds whole_numbers 300 (resource 9000 200) (ground arith) (ground arith)
      (ground arith)

abbrev late : PowerupOrder
late = record { id = 1; owner = 5; net_weight = pos 100; cpu_weight = pos 0; expires = 4000000 }

abbrev queue : ℕ → Resources → List (ℕ × ℕ × PowerupOrder) → Pending
queue net resources orders = record {
  orders = orders;
  resources = resources;
  net_delta_available = pos net;
  cpu_delta_available = pos 0;
}

abbrev returned : Resources
unfolding set_resource_limits reserved granted
returned = record (set_resource_limits 5 (limits 0 0) granted) {
  userres = (80, 80, row 80 0 9000) ∷ [];
}

abbrev one_left : Pending
unfolding returned
one_left = queue 9000 returned ((0, 1, late) ∷ [])

takes_back :
    take_expired sample_lib names 2 3000000 (queue 0 granted ((0, 0, order) ∷ (0, 1, late) ∷ []))
    ≡ ok one_left
unfolding take_expired return_order first_expiring adjust_resources adjusted_row check_bandwidth
    write_bandwidth reserved granted returned one_left set_resource_limits has_field Scoped.find
    Scoped.set Scoped.erase Table.find sample_lib wrap64 ◌-ℤ◌ ◌+ℤ◌
takes_back = refl

abbrev two_orders : List (ℕ × ℕ × PowerupOrder)
two_orders = (0, 0, order) ∷ (0, 1, late) ∷ []

take_expired_drains_example :
    (count_expired 3000000 one_left.orders ≡ count_expired 3000000 two_orders - 2)
    × (live 3000000 (Scoped.find 0 1 one_left.orders) ≡ live 3000000 (Scoped.find 0 1 two_orders))
    × ((to_uint64 (quota (row_weight net_kind) 5 one_left.resources)
            + to_uint64 (total (owned net_kind 5) two_orders))
          % 2 ^ 64
        ≡ (to_uint64 (quota (row_weight net_kind) 5 granted)
            + to_uint64 (total (owned net_kind 5) one_left.orders))
          % 2 ^ 64)
    × ((to_uint64 (delta_available net_kind one_left)
            + to_uint64 (total (order_weight net_kind) one_left.orders))
          % 2 ^ 64
        ≡ (to_uint64 (pos 0) + to_uint64 (total (order_weight net_kind) two_orders)) % 2 ^ 64)
unfolding Scoped.find
take_expired_drains_example =
    take_expired_drains sample_lib names 2 3000000 (queue 0 granted two_orders) one_left 1 net_kind
      5 (refl, refl, (refl, refl, tt)) (refl, (refl, tt)) takes_back

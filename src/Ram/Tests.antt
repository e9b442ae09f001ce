-- ===== src/Ram/Tests.antt =====
-- Runs of the market for RAM and its theorems at concrete inputs.
use wax_system_contracts.Prelude.{ℕ, ◌≡◌, refl, true, some, ok, List, [], ◌∷◌}
use wax_system_contracts.Prelude.Int.{pos, ◌<ℤ◌, ◌≤ℤ◌, ◌+ℤ◌, ◌-ℤ◌, wrap64, quot_ℤ}
use wax_system_contracts.Prelude.Scoped
use wax_system_contracts.Prelude.Scoped.Total.{total}
use wax_system_contracts.Prelude.Table
use wax_system_contracts.Asset.{Asset, Symbol, Chain, Transfer}
use wax_system_contracts.Asset.Sample.{sample_lib, sample_laws}
use wax_system_contracts.Double.Sample.{whole_numbers}
use wax_system_contracts.Resources.{
  UserResources, Resources, row_of, set_resource_limits, has_field,
}
use wax_system_contracts.Resources.Grants.{add_bytes, take_bytes, sellable, write_ram}
use wax_system_contracts.Ram.{ExchangeState, Ram, RamLib}
use wax_system_contracts.Ram.Exchange.{direct_convert, trade, get_bancor_output}
use wax_system_contracts.Ram.Supply.{update_ram_supply}
use wax_system_contracts.Ram.Trade.{buyram, sellram, fee_of}
use wax_system_contracts.Ram.Backing.{IsBacked}
use wax_system_contracts.Ram.Steps.{buys, apply, apply-IsBacked}
use wax_system_contracts.Ram.Fees.{payments, sellram_sound}

abbrev wax : Symbol
wax = record { code = 7; precision = 8 }

abbrev ram : Symbol
ram = record { code = 8; precision = 0 }

abbrev asset : Symbol → ℕ → Asset
asset symbol n = record { amount = pos n; symbol = symbol }

abbrev ram_lib : RamLib ℕ
ram_lib = record {
  ramcore_symbol = record { code = 9; precision = 4 };
  ram_symbol = ram;
  half = 1;
  self = 1;
  ram_account = 60;
  ramfee_account = 61;
}

abbrev anyone : Chain
anyone = record {
  has_auth = λ n. true;
  is_account = λ n. true;
  has_permission = λ a p. true;
  now = 0;
  now_sec = 0;
}

abbrev market : ℕ → ℕ → ExchangeState ℕ
market bytes tokens = record {
  supply = asset (record { code = 9; precision = 4 }) 100000000000000;
  base = record { balance = asset ram bytes; weight = 1 };
  quote = record { balance = asset wax tokens; weight = 1 };
}

abbrev unlimited : ℕ → Resources
unlimited n = record {
  userres = [];
  flags = (5, 1) ∷ [];
  limits = λ a. record { ram = pos n; net = pos 0; cpu = pos 0 };
}

abbrev row : ℕ → UserResources
row bytes = record {
  owner = 5;
  net_weight = asset wax 0;
  cpu_weight = asset wax 0;
  ram_bytes = pos bytes;
}

-- Account 5 has its RAM managed by the system, so that trades leave its limit alone.
abbrev start : Ram ℕ
start = record {
  market = some (market 1000000 1000);
  max_ram_size = 1000000;
  total_ram_bytes_reserved = 0;
  total_ram_stake = pos 0;
  new_ram_per_block = 0;
  last_ram_increase = 100;
  resources = unlimited 0;
}

abbrev bought : Ram ℕ
bought = record start {
  market = some (market 834029 1199);
  total_ram_bytes_reserved = 165971;
  total_ram_stake = pos 199;
  resources = record (unlimited 0) { userres = (5, 5, row 165971) ∷ [] };
}

buys_for_200 :
    buyram sample_lib whole_numbers ram_lib anyone 100 5 5 (asset wax 200) start
    ≡ ok (payments ram_lib 5 (asset wax 200) 199 1, bought)
unfolding buyram update_ram_supply direct_convert get_bancor_output trade add_bytes fee_of write_ram
    set_resource_limits has_field Scoped.find Scoped.set Table.find sample_lib quot_ℤ wrap64 ◌-ℤ◌
    ◌+ℤ◌
buys_for_200 = refl

abbrev sold : Ram ℕ
sold = record start {
  market = some (market 1000000 1001);
  total_ram_bytes_reserved = 0;
  total_ram_stake = pos 1;
  resources = record (unlimited 0) { userres = (5, 5, row 0) ∷ [] };
}

abbrev proceeds : List Transfer
proceeds =
    record { from = 60; to = 5; quantity = asset wax 198 }
    ∷ record { from = 5; to = 61; quantity = asset wax 1 }
    ∷ []

sells_all :
    sellram sample_lib whole_numbers ram_lib anyone 100 5 (pos 165971) bought ≡ ok (proceeds, sold)
unfolding sellram update_ram_supply direct_convert get_bancor_output trade take_bytes sellable
    fee_of write_ram set_resource_limits has_field Scoped.find Scoped.set Table.find sample_lib
    quot_ℤ wrap64 ◌-ℤ◌ ◌+ℤ◌
sells_all = refl

start-IsBacked : IsBacked start
unfolding total
start-IsBacked = record { for_sale = refl; owned = refl }

apply-IsBacked_example : IsBacked bought
unfolding apply
apply-IsBacked_example =
    apply-IsBacked sample_lib sample_laws whole_numbers ram_lib anyone
      (buys 100 5 5 (asset wax 200)) start bought (payments ram_lib 5 (asset wax 200) 199 1)
      start-IsBacked buys_for_200

sellram_sound_example :
    (r : UserResources) × (tokens : Asset) × (rest : List Transfer) × (row_of 5 bought.resources
      ≡ some r)
    × (anyone.has_auth 5 ≡ true)
    × (pos 0 <ℤ pos 165971)
    × (pos 165971 ≤ℤ r.ram_bytes)
    × (pos 1 <ℤ tokens.amount)
    × (proceeds ≡ record { from = 60; to = 5; quantity = tokens } ∷ rest)
    × (sold.resources.userres
        ≡ Scoped.set 5 5
            (record r { ram_bytes = wrap64 (r.ram_bytes -ℤ pos 165971) })
            bought.resources.userres)
sellram_sound_example =
    sellram_sound sample_lib whole_numbers ram_lib anyone 100 5 (pos 165971) bought sold proceeds
      sells_all

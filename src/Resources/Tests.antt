-- ===== src/Resources/Tests.antt =====
-- The resources of an account at concrete inputs: account 5 has staked 30 for NET and 40 for CPU,
-- and nothing of it is managed by the system, which is account 1.
use wax_system_contracts.Prelude.{ℕ, ◌≡◌, refl, true, none, some, ok, arith, [], ◌∷◌}
use wax_system_contracts.Prelude.Int.{pos, ◌+ℤ◌, wrap64}
use wax_system_contracts.Prelude.Scoped
use wax_system_contracts.Prelude.Table
use wax_system_contracts.Asset.{Asset, Symbol, Chain}
use wax_system_contracts.Asset.Sample.{sample_lib}
use wax_system_contracts.Resources.{
  UserResources, net_managed, ResourceLimits, Resources, is_managed, set_resource_limits, has_field,
}
use wax_system_contracts.Resources.Admin.{setacctnet}
use wax_system_contracts.Resources.Grants.{
  change_totals, changed_row, check_bandwidth, write_bandwidth,
}
use wax_system_contracts.Resources.Agreement.{Agrees}
use wax_system_contracts.Resources.Steps.{stakes, apply, apply-Agrees}
use wax_system_contracts.Resources.Managed.{setacctnet_roundtrip}

abbrev wax : Symbol
wax = record { code = 7; precision = 8 }

abbrev coins : ℕ → Asset
coins n = record { amount = pos n; symbol = wax }

abbrev system : Chain
system = record {
  has_auth = λ n. true;
  is_account = λ n. true;
  has_permission = λ a p. true;
  now = 0;
  now_sec = 0;
}

abbrev row : ℕ → ℕ → UserResources
row net cpu = record {
  owner = 5;
  net_weight = coins net;
  cpu_weight = coins cpu;
  ram_bytes = pos 600;
}

abbrev limits : ℕ → ℕ → ResourceLimits
limits net cpu = record { ram = pos 2000; net = pos net; cpu = pos cpu }

abbrev start : Resources
start = record { userres = (5, 5, row 30 40) ∷ []; flags = (5, 0) ∷ []; limits = λ a. limits 30 40 }

abbrev staked : Resources
unfolding set_resource_limits
staked = record (set_resource_limits 5 (limits 130 240) start) {
  userres = (5, 5, row 130 240) ∷ [];
}

abbrev managed : Resources
unfolding set_resource_limits
managed = record (set_resource_limits 5 (limits 7 40) start) { flags = (5, 2) ∷ [] }

stakes_more : apply sample_lib wax 1 system (stakes 5 (coins 100) (coins 200)) start ≡ ok staked
unfolding apply change_totals changed_row check_bandwidth write_bandwidth staked set_resource_limits
    has_field Scoped.find Scoped.set Table.find sample_lib ◌+ℤ◌ wrap64
stakes_more = refl

start-Agrees : Agrees 5 start
unfolding has_field Table.find Scoped.find
start-Agrees = (refl, refl)

apply-Agrees_example : Agrees 5 staked
apply-Agrees_example =
    apply-Agrees sample_lib wax 1 5 system (stakes 5 (coins 100) (coins 200)) start staked refl
      start-Agrees stakes_more

setacctnet_roundtrip_example :
    (t : Resources) × (u : Resources) × (setacctnet 1 system 5 (some (pos 7)) start ≡ ok t)
    × ((t.limits 5).net ≡ pos 7)
    × (is_managed net_managed 5 t ≡ true)
    × (setacctnet 1 system 5 none t ≡ ok u)
    × (u.limits 5 ≡ start.limits 5)
    × (is_managed net_managed 5 u ≡ is_managed net_managed 5 start)
    × (u.userres ≡ start.userres)
unfolding has_field Table.find
setacctnet_roundtrip_example =
    setacctnet_roundtrip 1 system system 5 (pos 7) start 5 net_managed start-Agrees refl refl refl
      (omega arith)

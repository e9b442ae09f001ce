-- ===== src/Resources/Admin.antt =====
-- src/eosio.system.cpp: the limits that the system account sets.
use wax_system_contracts.Prelude.{
  ℕ, true, false, not, ◌||◌, Option, none, some, Result, ok, ◌>>=◌, ◌>>◌, check, or_fail, is_none,
  String,
}
use wax_system_contracts.Prelude.Int.{ℤ, pos, negsuc, ◌+ℤ◌, leb_ℤ, wrap64}
use wax_system_contracts.Prelude.Table
use wax_system_contracts.Asset.{Chain, require_auth}
use wax_system_contracts.Resources.{
  Field, ResourceLimits, Resources, ram_managed, net_managed, cpu_managed, set_field,
  ram_gift_bytes, row_of, quota, is_managed, set_resource_limits,
}

-- The field is set in the row of `voters`, which is made where there is none.
unfoldable pub manage : Field → ℕ → Resources → Resources
manage field account s =
    let flags : ℕ = elim (Table.find account s.flags) [ none ↦ 0 | some flags ↦ flags ] in
    record s { flags = Table.set account (set_field flags field true) s.flags }

-- The field is cleared, where it is set.
unfoldable pub unmanage : Field → String → ℕ → Resources → Result Resources
unmanage field message account s = do
  check (is_managed field account s) message
  flags ← or_fail (Table.find account s.flags) message
  ok (record s { flags = Table.set account (set_field flags field false) s.flags })

module _ (self : ℕ) where
  unfoldable pub setalimits : Chain → ℕ → ResourceLimits → Resources → Result Resources
  setalimits c account l s = do
    require_auth c self
    check (is_none (row_of account s)) "only supports unlimited accounts"
    check
        (not (
          is_managed ram_managed account s
          || is_managed net_managed account s
          || is_managed cpu_managed account s))
        "cannot use setalimits on an account with managed resources"
    ok (set_resource_limits account l s)

  unfoldable pub setacctram : Chain → ℕ → Option ℤ → Resources → Result Resources
  setacctram c account none s = do
    require_auth c self
    s' ← unmanage ram_managed "RAM of account is already unmanaged" account s
    let ram = wrap64 (ram_gift_bytes +ℤ quota (λ r. r.ram_bytes) account s)
    ok (set_resource_limits account (record (s.limits account) { ram = ram }) s')
  setacctram c account (some ram_bytes) s = do
    require_auth c self
    check (leb_ℤ (pos 0) ram_bytes) "not allowed to set RAM limit to unlimited"
    ok (
        set_resource_limits account (record (s.limits account) { ram = ram_bytes })
          (manage ram_managed account s))

  unfoldable pub setacctnet : Chain → ℕ → Option ℤ → Resources → Result Resources
  setacctnet c account none s = do
    require_auth c self
    s' ← unmanage net_managed "Network bandwidth of account is already unmanaged" account s
    let net = quota (λ r. r.net_weight.amount) account s
    ok (set_resource_limits account (record (s.limits account) { net = net }) s')
  setacctnet c account (some net_weight) s = do
    require_auth c self
    check (leb_ℤ (negsuc 0) net_weight) "invalid value for net_weight"
    ok (
        set_resource_limits account (record (s.limits account) { net = net_weight })
          (manage net_managed account s))

  unfoldable pub setacctcpu : Chain → ℕ → Option ℤ → Resources → Result Resources
  setacctcpu c account none s = do
    require_auth c self
    s' ← unmanage cpu_managed "CPU bandwidth of account is already unmanaged" account s
    let cpu = quota (λ r. r.cpu_weight.amount) account s
    ok (set_resource_limits account (record (s.limits account) { cpu = cpu }) s')
  setacctcpu c account (some cpu_weight) s = do
    require_auth c self
    check (leb_ℤ (negsuc 0) cpu_weight) "invalid value for cpu_weight"
    ok (
        set_resource_limits account (record (s.limits account) { cpu = cpu_weight })
          (manage cpu_managed account s))

-- ===== src/Resources/Agreement.antt =====
-- The limits of NET and CPU that the chain enforces agree with the rows of `userres`.
use wax_system_contracts.Prelude.{
  ℕ, ◌≡◌, sym, subst, Bool, true, false, not, ◌&&◌, Option, none, some, ok, arith, ◌==◌,
  if◌then◌else◌,
}
use wax_system_contracts.Prelude.Int.{ℤ, ◌+ℤ◌, wrap64}
use wax_system_contracts.Prelude.Table
use wax_system_contracts.Prelude.Scoped
use wax_system_contracts.Asset.{Chain}
use wax_system_contracts.Resources.{
  UserResources, Field, ram_managed, net_managed, cpu_managed, ResourceLimits, Resources, quota,
  is_managed, set_resource_limits, has_field-set_field, has_field, set_field, bit, ram_gift_bytes,
}
use wax_system_contracts.Resources.Admin.{setacctram, setacctnet, setacctcpu, manage, unmanage}
use wax_system_contracts.Resources.Grants.{write_ram, write_bandwidth}

-- A limit that the system does not manage is what the account has staked or been granted.
abbrev pub Agrees : ℕ → Resources → Type 0
Agrees a s =
    ((s.limits a).net ≡ (
      if is_managed net_managed a s
      then (s.limits a).net
      else quota (λ r. r.net_weight.amount) a s))
    × ((s.limits a).cpu ≡ (
        if is_managed cpu_managed a s
        then (s.limits a).cpu
        else quota (λ r. r.cpu_weight.amount) a s))

pub write_bandwidth-Agrees :
    (account a : ℕ) (r : UserResources) (s : Resources)
    → Agrees a s
    → Agrees a (write_bandwidth account r s)
unfolding write_bandwidth set_resource_limits
write_bandwidth-Agrees account a r s agrees = ground (
  arith,
  Scoped.find-set account account a a r s.userres,
  Scoped.find-erase account account a a s.userres,
)

pub write_ram-Agrees :
    (account a : ℕ) (r : UserResources) (s : Resources)
    → quota (λ x. x.net_weight.amount) account s ≡ r.net_weight.amount
    → quota (λ x. x.cpu_weight.amount) account s ≡ r.cpu_weight.amount
    → Agrees a s
    → Agrees a (write_ram account r s)
unfolding write_ram set_resource_limits
write_ram-Agrees account a r s net cpu agrees =
    ground (arith, Scoped.find-set account account a a r s.userres)

-- The flags of an account's row, which counts as clear where it is missing.
abbrev pub flags_of : ℕ → Resources → ℕ
flags_of account s = elim (Table.find account s.flags) [ none ↦ 0 | some flags ↦ flags ]

pub is_managed-flags_of :
    (g : Field) (account : ℕ) (s : Resources)
    → is_managed g account s ≡ has_field (flags_of account s) g
unfolding has_field
is_managed-flags_of ram_managed account s = ground arith
is_managed-flags_of net_managed account s = ground arith
is_managed-flags_of cpu_managed account s = ground arith

-- The system account sets a flag and the limits of an account.
unfoldable pub with_flag : Field → Bool → ℕ → ResourceLimits → Resources → Resources
with_flag f value account l s =
    set_resource_limits account l
      (record s { flags = Table.set account (set_field (flags_of account s) f value) s.flags })

with_flag-Agrees :
    (f : Field) (value : Bool) (account a : ℕ) (l : ResourceLimits) (s : Resources)
    → (l.net ≡ (
        if account == a && not (if bit f == 2 then value else is_managed net_managed a s)
        then quota (λ r. r.net_weight.amount) a s
        else l.net))
    → (l.cpu ≡ (
        if account == a && not (if bit f == 4 then value else is_managed cpu_managed a s)
        then quota (λ r. r.cpu_weight.amount) a s
        else l.cpu))
    → Agrees a s
    → Agrees a (with_flag f value account l s)
unfolding with_flag set_resource_limits
with_flag-Agrees f value account a l s net cpu agrees =
    let flags = flags_of account s in
    ground (
      arith,
      Table.find-set account a (set_field flags f value) s.flags,
      has_field-set_field flags f net_managed value,
      has_field-set_field flags f cpu_managed value,
      is_managed-flags_of net_managed account s,
      is_managed-flags_of cpu_managed account s,
    )

module _ (self : ℕ) (c : Chain) (account a : ℕ) (s t : Resources) (agrees : Agrees a s) where
  pub setacctram-Agrees : (value : Option ℤ) → setacctram self c account value s ≡ ok t → Agrees a t
  unfolding setacctram manage unmanage with_flag
  setacctram-Agrees none h =
      let l = record (s.limits account) {
        ram = wrap64 (ram_gift_bytes +ℤ quota (λ r. r.ram_bytes) account s);
      } in
      let t_is : t ≡ with_flag ram_managed false account l s = ground arith in
      subst (Agrees a) (sym t_is)
        (with_flag-Agrees ram_managed false account a l s (ground arith) (ground arith) agrees)
  setacctram-Agrees (some v) h =
      let l = record (s.limits account) { ram = v } in
      let t_is : t ≡ with_flag ram_managed true account l s = ground arith in
      subst (Agrees a) (sym t_is)
        (with_flag-Agrees ram_managed true account a l s (ground arith) (ground arith) agrees)

  pub setacctnet-Agrees : (value : Option ℤ) → setacctnet self c account value s ≡ ok t → Agrees a t
  unfolding setacctnet manage unmanage with_flag
  setacctnet-Agrees none h =
      let l = record (s.limits account) { net = quota (λ r. r.net_weight.amount) account s } in
      let t_is : t ≡ with_flag net_managed false account l s = ground arith in
      subst (Agrees a) (sym t_is)
        (with_flag-Agrees net_managed false account a l s (ground arith) (ground arith) agrees)
  setacctnet-Agrees (some v) h =
      let l = record (s.limits account) { net = v } in
      let t_is : t ≡ with_flag net_managed true account l s = ground arith in
      subst (Agrees a) (sym t_is)
        (with_flag-Agrees net_managed true account a l s (ground arith) (ground arith) agrees)

  pub setacctcpu-Agrees : (value : Option ℤ) → setacctcpu self c account value s ≡ ok t → Agrees a t
  unfolding setacctcpu manage unmanage with_flag
  setacctcpu-Agrees none h =
      let l = record (s.limits account) { cpu = quota (λ r. r.cpu_weight.amount) account s } in
      let t_is : t ≡ with_flag cpu_managed false account l s = ground arith in
      subst (Agrees a) (sym t_is)
        (with_flag-Agrees cpu_managed false account a l s (ground arith) (ground arith) agrees)
  setacctcpu-Agrees (some v) h =
      let l = record (s.limits account) { cpu = v } in
      let t_is : t ≡ with_flag cpu_managed true account l s = ground arith in
      subst (Agrees a) (sym t_is)
        (with_flag-Agrees cpu_managed true account a l s (ground arith) (ground arith) agrees)

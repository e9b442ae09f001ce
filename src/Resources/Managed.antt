-- ===== src/Resources/Managed.antt =====
-- A resource that the system manages for a while.
use wax_system_contracts.Prelude.{ℕ, ◌≡◌, refl, true, false, none, some, ok, arith}
use wax_system_contracts.Prelude.Int.{ℤ, negsuc, ◌≤ℤ◌}
use wax_system_contracts.Prelude.Table
use wax_system_contracts.Asset.{Chain}
use wax_system_contracts.Resources.{
  Field, net_managed, Resources, quota, is_managed, set_resource_limits, has_field-set_field,
  set_field,
}
use wax_system_contracts.Resources.Admin.{setacctnet, manage, unmanage}
use wax_system_contracts.Resources.Agreement.{Agrees, with_flag, flags_of, is_managed-flags_of}

-- What is managed can be released.
release :
    (self : ℕ) (c c' : Chain) (account : ℕ) (net : ℤ) (s t : Resources) (a : ℕ) (f : Field)
    → Agrees account s
    → is_managed net_managed account s ≡ false
    → c'.has_auth self ≡ true
    → setacctnet self c account (some net) s ≡ ok t
    → (u : Resources) × (setacctnet self c' account none t ≡ ok u)
      × (u.limits a ≡ s.limits a)
      × (is_managed f a u ≡ is_managed f a s)
      × (u.userres ≡ s.userres)
unfolding setacctnet manage unmanage with_flag set_resource_limits
release self c c' account net s t a f agrees free auth h =
    let l = record (s.limits account) { net = net } in
    let t_is : t ≡ with_flag net_managed true account l s = ground arith in
    let flags = flags_of account s in
    let on = set_field flags net_managed true in
    let off = set_field on net_managed false in
    let set_on = Table.find-set account account on s.flags in
    let released = record (t.limits account) { net = quota (λ r. r.net_weight.amount) account t } in
    (
      with_flag net_managed false account released t,
      rw t_is (ground (arith, set_on, has_field-set_field flags net_managed net_managed true)),
      rw t_is (ground (arith, set_on)),
      rw t_is (
          ground (
            arith,
            set_on,
            Table.find-set account a on s.flags,
            Table.find-set account a off (Table.set account on s.flags),
            has_field-set_field flags net_managed f true,
            has_field-set_field on net_managed f false,
            is_managed-flags_of f account s,
            free,
            is_managed-flags_of net_managed account s,
            has_field-set_field flags net_managed net_managed true,
          )),
      rw t_is refl,
    )

-- For an account whose NET limit is its stake, which the system does not manage: the system account
-- can set any NET limit from -1 on, which then holds, and can release it again, which restores the
-- limits and the flags of every account; no row of resources changes.
pub setacctnet_roundtrip :
    (self : ℕ) (c c' : Chain) (account : ℕ) (net : ℤ) (s : Resources) (a : ℕ) (f : Field)
    → Agrees account s
    → is_managed net_managed account s ≡ false
    → c.has_auth self ≡ true
    → c'.has_auth self ≡ true
    → negsuc 0 ≤ℤ net
    → (t : Resources) × (u : Resources) × (setacctnet self c account (some net) s ≡ ok t)
      × ((t.limits account).net ≡ net)
      × (is_managed net_managed account t ≡ true)
      × (setacctnet self c' account none t ≡ ok u)
      × (u.limits a ≡ s.limits a)
      × (is_managed f a u ≡ is_managed f a s)
      × (u.userres ≡ s.userres)
unfolding setacctnet manage with_flag set_resource_limits
setacctnet_roundtrip self c c' account net s a f agrees free auth auth' fits =
    let l = record (s.limits account) { net = net } in
    let t = with_flag net_managed true account l s in
    let managed : setacctnet self c account (some net) s ≡ ok t = ground arith in
    let flags = flags_of account s in
    let set_on = Table.find-set account account (set_field flags net_managed true) s.flags in
    let (u, released, limits, managed', rows) =
      release self c c' account net s t a f agrees free auth' managed in
    (
      t,
      u,
      managed,
      ground arith,
      ground (arith, set_on, has_field-set_field flags net_managed net_managed true),
      released,
      limits,
      managed',
      rows,
    )

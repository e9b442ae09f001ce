-- ===== src/Powerup/Owners.antt =====
-- What each account is granted and the orders of the queue hold for it, and what an order that is
-- taken back changes of it.
use wax_system_contracts.Prelude.{
  ℕ, ◌+◌, ◌%◌, ◌^◌, ◌≡◌, ap, sym, ◌∙◌, Bool, ◌&&◌, some, ok, arith, if◌then◌else◌, inl, inr,
  Bool-cases, Result-cases, false, ◌==◌,
}
use wax_system_contracts.Prelude.Int.{◌+ℤ◌, ℤ, pos, ◌-ℤ◌, wrap64}
use wax_system_contracts.Prelude.Int.Uint64.{
  to_uint64-wrap64, to_uint64, to_uint64-add, to_uint64-lt,
}
use wax_system_contracts.Prelude.Scoped
use wax_system_contracts.Prelude.Scoped.Sum.{IsUnique}
use wax_system_contracts.Prelude.Scoped.Total.{total, total-erase}
use wax_system_contracts.Asset.{Symbol, AssetLib}
use wax_system_contracts.Resources.{UserResources, Resources, row_of, is_empty_row, is_zero, quota}
use wax_system_contracts.Resources.Grants.{adjust_resources, adjusted_row, write_bandwidth}
use wax_system_contracts.Powerup.{PowerupOrder, PowerupLib}
use wax_system_contracts.Powerup.Queue.{Pending, return_order}
use wax_system_contracts.Powerup.Totals.{
  Kind, row_weight, delta_of, write_bandwidth-userres, is_empty_row-row_weight, adjusted_row-weight,
  no_delta,
}
use wax_system_contracts.Powerup.Loop.{order_weight, delta_available, negated, taken_back}

-- What an order holds for an account.
abbrev pub owned : Kind → ℕ → PowerupOrder → ℤ
owned k who o = if o.owner == who then order_weight k o else pos 0

write_bandwidth-quota :
    (k : Kind) (account who : ℕ) (r : UserResources) (s : Resources)
    → quota (row_weight k) who (write_bandwidth account r s)
      ≡ (if account == who then row_weight k r else quota (row_weight k) who s)
write_bandwidth-quota k account who r s = elim (Bool-cases (is_empty_row r)) [
  | inl empty ↦
      rw (write_bandwidth-userres account r s, empty)
        (ground (
          arith,
          Scoped.find-erase account account who who s.userres,
          is_empty_row-row_weight k r empty,
        ))
  | inr full ↦
      rw (write_bandwidth-userres account r s, full)
        (ground (arith, Scoped.find-set account account who who r s.userres))
]

-- A grant changes what its account has, by the delta, and what no other account has.
adjust_resources-quota :
    (lib : AssetLib) (core : Symbol) (k : Kind) (must_not : Bool) (account who : ℕ) (net cpu : ℤ)
    (s t : Resources)
    → adjust_resources lib core must_not account net cpu s ≡ ok t
    → to_uint64 (quota (row_weight k) who t)
      ≡ (to_uint64 (quota (row_weight k) who s)
          + (if account == who then to_uint64 (delta_of k net cpu) else 0))
        % 2 ^ 64
unfolding adjust_resources
adjust_resources-quota lib core k must_not account who net cpu s t h =
    let before = quota (row_weight k) who s in
    elim (Bool-cases (is_zero net && is_zero cpu)) [
      | inl nothing ↦
          let same : t ≡ s = ground arith in
          let zero_delta : to_uint64 (delta_of k net cpu) ≡ 0 = no_delta k net cpu nothing in
          elim (Bool-cases (account == who)) [
            | inl own ↦ rw (same, zero_delta, own) (omega (arith, to_uint64-lt before))
            | inr other ↦ rw (same, other) (omega (arith, to_uint64-lt before))
          ]
      | inr some_delta ↦
          elim (Result-cases (adjusted_row lib core account net cpu (row_of account s))) [
            | inr (_, e) ↦ absurd (ground arith)
            | inl (r, e) ↦
                let t_is : t ≡ write_bandwidth account r s = ground arith in
                let weight = adjusted_row-weight lib core k account net cpu s r e in
                elim (Bool-cases (account == who)) [
                  | inl own ↦
                      let here : account ≡ who = ground arith in
                      rw (t_is, write_bandwidth-quota k account who r s, own, sym here) weight
                  | inr other ↦
                      rw (t_is, write_bandwidth-quota k account who r s, other)
                        (omega (arith, to_uint64-lt before))
                ]
          ]
    ]

-- An order that is taken back takes from its owner what it held for it.
pub return_order-quota :
    (lib : AssetLib) (names : PowerupLib) (k : Kind) (who : ℕ) (o : PowerupOrder) (p p' : Pending)
    → IsUnique p.orders
    → Scoped.find 0 o.id p.orders ≡ some o
    → return_order lib names o p ≡ ok p'
    → (to_uint64 (quota (row_weight k) who p'.resources) + to_uint64 (total (owned k who) p.orders))
        % 2 ^ 64
      ≡ (to_uint64 (quota (row_weight k) who p.resources)
          + to_uint64 (total (owned k who) p'.orders))
        % 2 ^ 64
return_order-quota lib names k who o p p' unique found h =
    let (_, orders_are, adjusted) = taken_back lib names k 0 0 o p p' h in
    let rest = total (owned k who) (Scoped.erase 0 o.id p.orders) in
    let erased = total-erase (owned k who) 0 o.id o p.orders unique found in
    let sum = sym (to_uint64-add rest (owned k who o)) ∙ ap to_uint64 erased in
    let change =
      adjust_resources-quota lib names.core_symbol k false o.owner who
        (wrap64 (pos 0 -ℤ o.net_weight)) (wrap64 (pos 0 -ℤ o.cpu_weight)) p.resources p'.resources
        adjusted in
    elim (Bool-cases (o.owner == who)) [
      | inl own ↦
          rw orders_are
            (omega (arith, rw own at change, rw own at sum, negated k o.net_weight o.cpu_weight))
      | inr other ↦ rw orders_are (omega (arith, rw other at change, rw other at sum))
    ]

-- An order that is taken back is available again.
pub return_order-delta :
    (lib : AssetLib) (names : PowerupLib) (k : Kind) (o : PowerupOrder) (p p' : Pending)
    → IsUnique p.orders
    → Scoped.find 0 o.id p.orders ≡ some o
    → return_order lib names o p ≡ ok p'
    → (to_uint64 (delta_available k p') + to_uint64 (total (order_weight k) p'.orders)) % 2 ^ 64
      ≡ (to_uint64 (delta_available k p) + to_uint64 (total (order_weight k) p.orders)) % 2 ^ 64
return_order-delta lib names k o p p' unique found h =
    let (delta_is, orders_are, _) = taken_back lib names k 0 0 o p p' h in
    let w = order_weight k o in
    let rest = total (order_weight k) (Scoped.erase 0 o.id p.orders) in
    let erased = total-erase (order_weight k) 0 o.id o p.orders unique found in
    rw (orders_are, delta_is)
      (omega (
        arith,
        to_uint64-wrap64 (delta_available k p +ℤ w),
        to_uint64-add (delta_available k p) w,
        sym (to_uint64-add rest w) ∙ ap to_uint64 erased,
      ))

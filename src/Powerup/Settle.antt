-- ===== src/Powerup/Settle.antt =====
-- How a sale, a new configuration and the reserve account keep the sums of the resource market.
use wax_system_contracts.Prelude.{
  ℕ, ◌+◌, ◌%◌, ◌^◌, ◌≡◌, refl, ap, ◌∙◌, true, none, some, ok, arith, inl, inr, Bool-cases,
}
use wax_system_contracts.Prelude.Int.{ℤ, pos, ◌+ℤ◌, ◌-ℤ◌, wrap64}
use wax_system_contracts.Prelude.Int.Uint64.{
  to_uint64, to_uint64-add, to_uint64-sub, to_uint64-wrap64, to_uint64-lt,
}
use wax_system_contracts.Prelude.Scoped
use wax_system_contracts.Prelude.Scoped.Sum.{set-IsUnique}
use wax_system_contracts.Prelude.Scoped.Total.{total, total-set_new}
use wax_system_contracts.Asset.{AssetLib}
use wax_system_contracts.Double.{Double}
use wax_system_contracts.Resources.{Resources, is_zero}
use wax_system_contracts.Resources.Grants.{adjust_resources}
use wax_system_contracts.Powerup.{PowerupStateResource, PowerupState, PowerupOrder, PowerupLib}
use wax_system_contracts.Powerup.Queue.{Pending}
use wax_system_contracts.Powerup.Sale.{sell_fraction}
use wax_system_contracts.Powerup.Totals.{Kind, net_kind, cpu_kind, delta_of, adjust_resources-total}
use wax_system_contracts.Powerup.Loop.{set-IsKeyed, order_weight}
use wax_system_contracts.Powerup.Balance.{IsBalanced, IsUnsettled, resource_of}

-- The key that the database offers is free.
pub record PowerupLaws (names : PowerupLib) : Type 0 where
  pub key_is_free :
      (t : Scoped.Scoped PowerupOrder) → Scoped.find 0 (names.available_primary_key t) t ≡ none

module _ {D : Type 0} (lib : AssetLib) (names : PowerupLib) (k : Kind) (others : ℕ) where
  pub reserve-IsBalanced :
      (state : PowerupState D) (p : Pending) (r : Resources)
      → IsUnsettled k others state p
      → adjust_resources lib names.core_symbol true names.reserve_account p.net_delta_available
          p.cpu_delta_available p.resources
        ≡ ok r
      → IsBalanced {D = D} k others
          (record { state = some state; orders = p.orders; resources = r })
  reserve-IsBalanced state p r b h =
      let (rows, unique) =
        adjust_resources-total lib names.core_symbol k true names.reserve_account
          p.net_delta_available p.cpu_delta_available p.resources r b.unique h in
      record {
        unique = unique;
        unique_orders = b.unique_orders;
        keyed = b.keyed;
        sold = b.sold;
        granted = rows ∙ b.granted;
      }

  -- An order is sold to a receiver: its row, the order, and the deltas.
  pub sale-IsUnsettled :
      (state state' : PowerupState D) (p : Pending) (o : PowerupOrder) (r : Resources)
      → IsUnsettled k others state p
      → Scoped.find 0 o.id p.orders ≡ none
      → (to_uint64 (resource_of k state').utilization
          ≡ (to_uint64 (resource_of k state).utilization + to_uint64 (order_weight k o)) % 2 ^ 64)
        × ((resource_of k state').weight ≡ (resource_of k state).weight)
      → adjust_resources lib names.core_symbol true o.owner o.net_weight o.cpu_weight p.resources
        ≡ ok r
      → IsUnsettled k others state' (record {
        orders = Scoped.set 0 o.id o p.orders;
        resources = r;
        net_delta_available = wrap64 (p.net_delta_available -ℤ o.net_weight);
        cpu_delta_available = wrap64 (p.cpu_delta_available -ℤ o.cpu_weight);
      })
  sale-IsUnsettled state state' p o r b free sold h =
      let (rows, unique) =
        adjust_resources-total lib names.core_symbol k true o.owner o.net_weight o.cpu_weight
          p.resources r b.unique h in
      let w = order_weight k o in
      let before = total (order_weight k) p.orders in
      record {
        unique = unique;
        unique_orders = set-IsUnique 0 o.id o p.orders b.unique_orders;
        keyed = set-IsKeyed o p.orders b.keyed;
        sold =
            rw (total-set_new (order_weight k) 0 o.id o p.orders free)
              (omega (arith, to_uint64-add before w, b.sold, sold.0));
        granted = omega (
          arith,
          rows,
          b.granted,
          ap to_uint64 sold.1,
          lowered k p.net_delta_available p.cpu_delta_available o.net_weight o.cpu_weight,
        );
      }
    where
      lowered :
          (k : Kind) (a b x y : ℤ)
          → (to_uint64 (delta_of k (wrap64 (a -ℤ x)) (wrap64 (b -ℤ y)))
                + to_uint64 (delta_of k x y))
              % 2 ^ 64
            ≡ to_uint64 (delta_of k a b)
      lowered net_kind a b x y = omega (arith, to_uint64-wrap64 (a -ℤ x), to_uint64-sub a x)
      lowered cpu_kind a b x y = omega (arith, to_uint64-wrap64 (b -ℤ y), to_uint64-sub b y)

module _ {D : Type 0} (real : Double D) where
  pub sell_fraction-sums :
      (frac fee amount fee' : ℤ) (res res' : PowerupStateResource D)
      → sell_fraction real frac fee res ≡ ok (amount, fee', res')
      → (to_uint64 res'.utilization ≡ (to_uint64 res.utilization + to_uint64 amount) % 2 ^ 64)
        × (res'.weight ≡ res.weight)
  unfolding sell_fraction
  sell_fraction-sums frac fee amount fee' res res' h = elim (Bool-cases (is_zero frac)) [
    | inl nothing ↦
        let r_is : res' ≡ res = ground arith in
        let a_is : amount ≡ pos 0 = ground arith in
        rw (r_is, a_is) (omega (arith, to_uint64-lt res.utilization), refl)
    | inr some_part ↦
        let u : res'.utilization ≡ wrap64 (res.utilization +ℤ amount) = ground arith in
        let w : res'.weight ≡ res.weight = ground arith in
        (
          rw u
              (to_uint64-wrap64 (res.utilization +ℤ amount) ∙ to_uint64-add res.utilization amount),
          w,
        )
  ]

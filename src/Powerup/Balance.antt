-- ===== src/Powerup/Balance.antt =====
-- The sums of the resource market, and how the queue and a sale keep them.
use wax_system_contracts.Prelude.{
  ℕ, ◌+◌, ◌%◌, ◌^◌, ◌≡◌, refl, ap, ◌∙◌, Option, none, some, ok, arith, inl, inr, Result-cases,
}
use wax_system_contracts.Prelude.Int.{ℤ, pos, ◌-ℤ◌, wrap64}
use wax_system_contracts.Prelude.Int.Uint64.{
  to_uint64, to_uint64-sub, to_uint64-wrap64, to_uint64-lt,
}
use wax_system_contracts.Prelude.Scoped.Sum.{IsUnique}
use wax_system_contracts.Prelude.Scoped.Total.{total}
use wax_system_contracts.Asset.{AssetLib}
use wax_system_contracts.Double.{Double}
use wax_system_contracts.Powerup.{PowerupStateResource, PowerupState, Powerup, PowerupLib}
use wax_system_contracts.Powerup.Curve.{update_weight, update_utilization}
use wax_system_contracts.Powerup.Queue.{Pending, take_expired, process_powerup_queue}
use wax_system_contracts.Powerup.Sale.{pending}
use wax_system_contracts.Powerup.Totals.{Kind, net_kind, cpu_kind, row_weight}
use wax_system_contracts.Powerup.Loop.{
  IsPending, IsKeyed, order_weight, delta_available, take_expired-IsPending, update_weight-sums,
}

module _ {D : Type 0} where
  abbrev pub resource_of : Kind → PowerupState D → PowerupStateResource D
  resource_of net_kind state = state.net
  resource_of cpu_kind state = state.cpu

  -- The utilization and the weight of a resource, which are 0 before the first `cfgpowerup`.
  abbrev pub utilization_of : Kind → Option (PowerupState D) → ℤ
  utilization_of k none = pos 0
  utilization_of k (some state) = (resource_of k state).utilization

  abbrev pub weight_of : Kind → Option (PowerupState D) → ℤ
  weight_of k none = pos 0
  weight_of k (some state) = (resource_of k state).weight

  -- What the market has sold is what its orders hold; and what all accounts were granted is the weight
  -- of the market and a number of others, which comes from staking. Numbers are of 64 bits.
  pub record IsBalanced (k : Kind) (others : ℕ) (s : Powerup D) : Type 0 where
    pub unique : IsUnique s.resources.userres
    pub unique_orders : IsUnique s.orders
    pub keyed : IsKeyed s.orders
    pub sold : to_uint64 (total (order_weight k) s.orders) ≡ to_uint64 (utilization_of k s.state)
    pub granted :
        ◌≡◌ {A = ℕ}
          (to_uint64 (total (row_weight k) s.resources.userres))
          ((to_uint64 (weight_of k s.state) + others) % 2 ^ 64)

  -- The same for a market that still has to give its delta to the reserve account.
  pub record IsUnsettled (k : Kind) (others : ℕ) (state : PowerupState D) (p : Pending)
      : Type 0 where
    pub unique : IsUnique p.resources.userres
    pub unique_orders : IsUnique p.orders
    pub keyed : IsKeyed p.orders
    pub sold :
        to_uint64 (total (order_weight k) p.orders) ≡ to_uint64 (resource_of k state).utilization
    pub granted :
        ◌≡◌ {A = ℕ}
          ((to_uint64 (total (row_weight k) p.resources.userres) + to_uint64 (delta_available k p))
            % 2 ^ 64)
          ((to_uint64 (resource_of k state).weight + others) % 2 ^ 64)

  pub update_utilization-same :
      (real : Double D) (now : ℕ) (res : PowerupStateResource D)
      → ((update_utilization real now res).utilization ≡ res.utilization)
        × ((update_utilization real now res).weight ≡ res.weight)
  unfolding update_utilization
  update_utilization-same real now res = ground arith

module _ {D : Type 0} (lib : AssetLib) (real : Double D) (names : PowerupLib) where
  -- The parts of `process_powerup_queue` for one resource.
  queue_parts :
      (k : Kind) (now max_items : ℕ) (state state' : PowerupState D) (p q : Pending)
      → process_powerup_queue lib real names now max_items state p ≡ ok (state', q)
      → (p' : Pending) × (take_expired lib names max_items now p ≡ ok p')
        × (update_weight now
              (delta_available k p')
              (record (update_utilization real now (resource_of k state)) {
                utilization = wrap64 (
                    (update_utilization real now (resource_of k state)).utilization
                    -ℤ delta_available k p');
              })
            ≡ ok (delta_available k q, resource_of k state'))
        × (q.orders ≡ p'.orders)
        × (q.resources ≡ p'.resources)
  unfolding process_powerup_queue
  queue_parts k now max_items state state' p q h =
      elim (Result-cases (take_expired lib names max_items now p)) [
        | inr (_, e) ↦ absurd (ground arith)
        | inl (p', e) ↦
            let net : PowerupStateResource D = record (update_utilization real now state.net) {
              utilization =
                  wrap64
                    ((update_utilization real now state.net).utilization -ℤ p'.net_delta_available);
            } in
            let cpu : PowerupStateResource D = record (update_utilization real now state.cpu) {
              utilization =
                  wrap64
                    ((update_utilization real now state.cpu).utilization -ℤ p'.cpu_delta_available);
            } in
            elim (Result-cases (update_weight now p'.net_delta_available net)) [
              | inr (_, e2) ↦ absurd (ground arith)
              | inl ((d, n), e2) ↦
                  elim (Result-cases (update_weight now p'.cpu_delta_available cpu)) [
                    | inr (_, e3) ↦ absurd (ground arith)
                    | inl ((d2, n2), e3) ↦ elim k [
                      | net_kind ↦ (p', ground arith, ground arith, ground arith, ground arith)
                      | cpu_kind ↦ (p', ground arith, ground arith, ground arith, ground arith)
                    ]
                  ]
            ]
      ]

  no_delta : (k : Kind) (s : Powerup D) → delta_available k (pending s) ≡ pos 0
  no_delta net_kind s = refl
  no_delta cpu_kind s = refl

  pub queue-IsUnsettled :
      (k : Kind) (others now max_items : ℕ) (state state' : PowerupState D) (s : Powerup D)
      (q : Pending)
      → IsBalanced k others s
      → s.state ≡ some state
      → process_powerup_queue lib real names now max_items state (pending s) ≡ ok (state', q)
      → IsUnsettled k others state' q
  queue-IsUnsettled k others now max_items state state' s q b has_state h =
      let (p', taken, updated, orders_are, resources_are) =
        queue_parts k now max_items state state' (pending s) q h in
      let res = resource_of k state in
      let moved = update_utilization real now res in
      let same = update_utilization-same real now res in
      let u = to_uint64 res.utilization in
      let w = (to_uint64 res.weight + others) % 2 ^ 64 in
      let sold_before = b.sold ∙ ap (λ x. to_uint64 (utilization_of k x)) has_state in
      let granted_before =
        b.granted ∙ ap (λ x. (to_uint64 (weight_of k x) + others) % 2 ^ 64) has_state in
      let at_start : IsPending k u w (pending s) = record {
        unique = b.unique;
        unique_orders = b.unique_orders;
        keyed = b.keyed;
        sold_sum = rw (no_delta k s, sold_before) (omega (arith, to_uint64-lt res.utilization));
        granted_sum = rw (no_delta k s, granted_before) (omega arith);
      } in
      let e = take_expired-IsPending lib names k u w max_items now (pending s) p' taken at_start in
      let lowered = wrap64 (moved.utilization -ℤ delta_available k p') in
      let low : PowerupStateResource D = record moved { utilization = lowered } in
      let (weights, kept) =
        update_weight-sums now (delta_available k p') (delta_available k q) low
          (resource_of k state') updated in
      record {
        unique = rw resources_are e.unique;
        unique_orders = rw orders_are e.unique_orders;
        keyed = rw orders_are e.keyed;
        sold =
            rw (orders_are, kept)
              (omega (
                arith,
                e.sold_sum,
                ap to_uint64 same.0,
                to_uint64-wrap64 (moved.utilization -ℤ delta_available k p'),
                to_uint64-sub moved.utilization (delta_available k p'),
                to_uint64-lt (total (order_weight k) p'.orders),
                to_uint64-lt (moved.utilization -ℤ delta_available k p'),
              ));
        granted = rw resources_are (omega (arith, e.granted_sum, weights, ap to_uint64 same.1));
      }

-- ===== src/Powerup/Queue.antt =====
-- src/powerup.cpp: `process_powerup_queue`, which takes back the resources of expired orders.
use wax_system_contracts.Prelude.{
  ℕ, zero, suc, Bool, false, ◌&&◌, ◌||◌, Option, none, some, Result, ok, ◌>>=◌, ◌==◌, ltb,
  if◌then◌else◌, [], ◌∷◌,
}
use wax_system_contracts.Prelude.Int.{ℤ, pos, ◌+ℤ◌, ◌-ℤ◌, wrap64}
use wax_system_contracts.Prelude.Scoped
use wax_system_contracts.Asset.{AssetLib}
use wax_system_contracts.Double.{Double}
use wax_system_contracts.Resources.{Resources}
use wax_system_contracts.Resources.Grants.{adjust_resources}
use wax_system_contracts.Powerup.{PowerupState, PowerupOrder, PowerupLib}
use wax_system_contracts.Powerup.Curve.{update_utilization, update_weight}

-- The order of the index `byexpires`, in which orders of one time stand by their keys.
abbrev pub expires_first : PowerupOrder → PowerupOrder → Bool
expires_first a b = ltb a.expires b.expires || (a.expires == b.expires && ltb a.id b.id)

-- `begin()` of the index.
unfoldable pub first_expiring : Scoped.Scoped PowerupOrder → Option PowerupOrder
first_expiring [] = none
first_expiring ((s, k, o) ∷ rest) = elim (first_expiring rest) [
  | none ↦ some o
  | some p ↦ if expires_first p o then some p else some o
]

-- What the loop changes.
pub record Pending : Type 0 where
  pub orders : Scoped.Scoped PowerupOrder
  pub resources : Resources
  pub net_delta_available : ℤ
  pub cpu_delta_available : ℤ

module _ (lib : AssetLib) (names : PowerupLib) where
  -- The body of the loop, for an order that has expired.
  unfoldable pub return_order : PowerupOrder → Pending → Result Pending
  return_order order p = do
    resources ←
        adjust_resources lib names.core_symbol false order.owner
          (wrap64 (pos 0 -ℤ order.net_weight)) (wrap64 (pos 0 -ℤ order.cpu_weight)) p.resources
    ok (record {
      orders = Scoped.erase 0 order.id p.orders;
      resources = resources;
      net_delta_available = wrap64 (p.net_delta_available +ℤ order.net_weight);
      cpu_delta_available = wrap64 (p.cpu_delta_available +ℤ order.cpu_weight);
    })

  -- The loop: at most `max_items` orders, each the first to expire.
  unfoldable pub take_expired : ℕ → ℕ → Pending → Result Pending
  take_expired zero now p = ok p
  take_expired (suc max_items) now p = elim (first_expiring p.orders) [
    | none ↦ ok p
    | some order ↦
        if ltb now order.expires
        then ok p
        else (do p' ← return_order order p; take_expired max_items now p')
  ]

module _ {D : Type 0} (lib : AssetLib) (real : Double D) (names : PowerupLib) where
  -- The market after the loop. Both deltas are 0 where the source calls this.
  unfoldable pub process_powerup_queue :
      ℕ → ℕ → PowerupState D → Pending → Result (PowerupState D × Pending)
  process_powerup_queue now max_items state₀ p₀ = do
    let net₀ = update_utilization real now state₀.net
    let cpu₀ = update_utilization real now state₀.cpu
    p ← take_expired lib names max_items now p₀
    let net₁ = record net₀ { utilization = wrap64 (net₀.utilization -ℤ p.net_delta_available) }
    let cpu₁ = record cpu₀ { utilization = wrap64 (cpu₀.utilization -ℤ p.cpu_delta_available) }
    (net_delta, net₂) ← update_weight now p.net_delta_available net₁
    (cpu_delta, cpu₂) ← update_weight now p.cpu_delta_available cpu₁
    ok (
      record state₀ { net = net₂; cpu = cpu₂ },
      record p { net_delta_available = net_delta; cpu_delta_available = cpu_delta },
    )

-- ===== src/Powerup/Loop.antt =====
-- What the loop of `process_powerup_queue` and the change of a weight do to the sums of the market.
use wax_system_contracts.Prelude.{
  ℕ, zero, suc, ◌+◌, ◌%◌, ◌^◌, ◌≡◌, refl, ap, sym, ◌∙◌, subst, false, some, ok, ltb, arith, inl,
  inr, Bool-cases, Option-cases, Result-cases, [], ◌∷◌,
}
use wax_system_contracts.Prelude.Int.{ℤ, pos, ◌+ℤ◌, ◌-ℤ◌, wrap64}
use wax_system_contracts.Prelude.Int.Uint64.{
  to_uint64, to_uint64-add, to_uint64-sub, to_uint64-wrap64,
}
use wax_system_contracts.Prelude.Scoped
use wax_system_contracts.Prelude.Scoped.Sum.{IsUnique, erase-IsUnique}
use wax_system_contracts.Prelude.Scoped.Total.{total, total-erase}
use wax_system_contracts.Asset.{AssetLib}
use wax_system_contracts.Resources.Grants.{adjust_resources}
use wax_system_contracts.Powerup.{PowerupStateResource, PowerupOrder, PowerupLib}
use wax_system_contracts.Powerup.Curve.{update_weight, current_ratio}
use wax_system_contracts.Powerup.Queue.{Pending, first_expiring, return_order, take_expired}
use wax_system_contracts.Powerup.Totals.{
  Kind, net_kind, cpu_kind, row_weight, delta_of, adjust_resources-total,
}

abbrev pub order_weight : Kind → PowerupOrder → ℤ
order_weight k o = delta_of k o.net_weight o.cpu_weight

abbrev pub delta_available : Kind → Pending → ℤ
delta_available k p = delta_of k p.net_delta_available p.cpu_delta_available

-- Orders stand in scope 0, by their own id.
abbrev pub IsKeyed : Scoped.Scoped PowerupOrder → Type 0
IsKeyed [] = Unit
IsKeyed ((s, k, o) ∷ rest) = (s ≡ 0) × (k ≡ o.id) × IsKeyed rest

pub set-IsKeyed :
    (o : PowerupOrder) (t : Scoped.Scoped PowerupOrder)
    → IsKeyed t
    → IsKeyed (Scoped.set 0 o.id o t)
unfolding Scoped.set
set-IsKeyed o [] keyed = (refl, refl, tt)
set-IsKeyed o ((s, k, p) ∷ t) keyed = ground (arith, set-IsKeyed o t)

pub erase-IsKeyed :
    (key : ℕ) (t : Scoped.Scoped PowerupOrder) → IsKeyed t → IsKeyed (Scoped.erase 0 key t)
unfolding Scoped.erase
erase-IsKeyed key [] keyed = tt
erase-IsKeyed key ((s, k, p) ∷ t) keyed = ground (arith, erase-IsKeyed key t)

pub first_expiring-find :
    (o : PowerupOrder) (t : Scoped.Scoped PowerupOrder)
    → IsKeyed t
    → IsUnique t
    → first_expiring t ≡ some o
    → Scoped.find 0 o.id t ≡ some o
unfolding first_expiring Scoped.find
first_expiring-find o [] keyed unique h = cc
first_expiring-find o ((s, k, q) ∷ t) keyed unique h = elim (Option-cases (first_expiring t)) [
  | inl missing ↦ ground arith
  | inr (p, found) ↦ ground (arith, first_expiring-find p t keyed.2 unique.1 found)
]

-- The sums of the orders and of the accounts' rows, each with what the loop has taken back so far.
pub record IsPending (k : Kind) (sold granted : ℕ) (p : Pending) : Type 0 where
  pub unique : IsUnique p.resources.userres
  pub unique_orders : IsUnique p.orders
  pub keyed : IsKeyed p.orders
  pub sold_sum :
      ◌≡◌ {A = ℕ}
        ((to_uint64 (total (order_weight k) p.orders) + to_uint64 (delta_available k p)) % 2 ^ 64)
        sold
  pub granted_sum :
      ◌≡◌ {A = ℕ}
        ((to_uint64 (total (row_weight k) p.resources.userres) + to_uint64 (delta_available k p))
          % 2 ^ 64)
        granted

opposite : (w : ℤ) → (to_uint64 (wrap64 (pos 0 -ℤ w)) + to_uint64 w) % 2 ^ 64 ≡ 0
opposite w = omega (arith, to_uint64-wrap64 (pos 0 -ℤ w), to_uint64-sub (pos 0) w)

pub negated :
    (k : Kind) (net cpu : ℤ)
    → (to_uint64 (delta_of k (wrap64 (pos 0 -ℤ net)) (wrap64 (pos 0 -ℤ cpu)))
          + to_uint64 (delta_of k net cpu))
        % 2 ^ 64
      ≡ 0
negated net_kind net cpu = opposite net
negated cpu_kind net cpu = opposite cpu

module _ (lib : AssetLib) (names : PowerupLib) (k : Kind) (sold granted : ℕ) where
  pub taken_back :
      (o : PowerupOrder) (p p' : Pending)
      → return_order lib names o p ≡ ok p'
      → (delta_available k p' ≡ wrap64 (delta_available k p +ℤ order_weight k o))
        × (p'.orders ≡ Scoped.erase 0 o.id p.orders)
        × (adjust_resources lib names.core_symbol false o.owner
              (wrap64 (pos 0 -ℤ o.net_weight))
              (wrap64 (pos 0 -ℤ o.cpu_weight))
              p.resources
            ≡ ok p'.resources)
  unfolding return_order
  taken_back o p p' h = elim k [ net_kind ↦ ground arith | cpu_kind ↦ ground arith ]

  return_order-IsPending :
      (o : PowerupOrder) (p p' : Pending)
      → first_expiring p.orders ≡ some o
      → return_order lib names o p ≡ ok p'
      → IsPending k sold granted p
      → IsPending k sold granted p'
  return_order-IsPending o p p' first h b =
      let (delta_is, orders_are, adjusted) = taken_back o p p' h in
      let w = order_weight k o in
      let found = first_expiring-find o p.orders b.keyed b.unique_orders first in
      let erased = total-erase (order_weight k) 0 o.id o p.orders b.unique_orders found in
      let (rows, unique') =
        adjust_resources-total lib names.core_symbol k false o.owner
          (wrap64 (pos 0 -ℤ o.net_weight)) (wrap64 (pos 0 -ℤ o.cpu_weight)) p.resources p'.resources
          b.unique adjusted in
      let rest = total (order_weight k) (Scoped.erase 0 o.id p.orders) in
      let delta_sum =
        to_uint64-wrap64 (delta_available k p +ℤ w) ∙ to_uint64-add (delta_available k p) w in
      record {
        unique = unique';
        unique_orders = rw orders_are (erase-IsUnique 0 o.id p.orders b.unique_orders);
        keyed = rw orders_are (erase-IsKeyed o.id p.orders b.keyed);
        sold_sum =
            rw (orders_are, delta_is)
              (omega
                (arith, b.sold_sum, delta_sum, sym (to_uint64-add rest w) ∙ ap to_uint64 erased));
        granted_sum =
            rw delta_is
              (omega (arith, b.granted_sum, rows, delta_sum, negated k o.net_weight o.cpu_weight));
      }

  pub take_expired-IsPending :
      (max_items now : ℕ) (p p' : Pending)
      → take_expired lib names max_items now p ≡ ok p'
      → IsPending k sold granted p
      → IsPending k sold granted p'
  unfolding take_expired
  take_expired-IsPending zero now p p' h b =
      let same : p ≡ p' = ground arith in subst (IsPending k sold granted) same b
  take_expired-IsPending (suc max_items) now p p' h b =
      elim (Option-cases (first_expiring p.orders)) [
        | inl empty ↦ let same : p ≡ p' = ground arith in subst (IsPending k sold granted) same b
        | inr (o, first) ↦ elim (Bool-cases (ltb now o.expires)) [
          | inl later ↦ let same : p ≡ p' = ground arith in subst (IsPending k sold granted) same b
          | inr expired ↦ elim (Result-cases (return_order lib names o p)) [
            | inr (_, e) ↦ absurd (ground arith)
            | inl (q, e) ↦
                let step : take_expired lib names max_items now q ≡ ok p' = ground arith in
                take_expired-IsPending max_items now q p' step
                  (return_order-IsPending o p q first e b)
          ]
        ]
      ]

-- A weight changes by what is added to the delta.
pub update_weight-sums :
    {D : Type 0} (now : ℕ) (delta delta' : ℤ) (res res' : PowerupStateResource D)
    → update_weight now delta res ≡ ok (delta', res')
    → ((to_uint64 delta' + to_uint64 res.weight) % 2 ^ 64
        ≡ (to_uint64 delta + to_uint64 res'.weight) % 2 ^ 64)
      × (res'.utilization ≡ res.utilization)
unfolding update_weight
update_weight-sums now delta delta' res res' h = elim (Result-cases (current_ratio now res)) [
  | inr (_, e) ↦ absurd (ground arith)
  | inl (ratio, e) ↦
      let change = wrap64 (res'.weight -ℤ res.weight) in
      let delta_is : delta' ≡ wrap64 (delta +ℤ change) = ground arith in
      let same : res'.utilization ≡ res.utilization = ground arith in
      (
        rw delta_is (
            omega (
              arith,
              to_uint64-wrap64 (delta +ℤ change),
              to_uint64-add delta change,
              to_uint64-wrap64 (res'.weight -ℤ res.weight),
              to_uint64-sub res'.weight res.weight,
            )),
        same,
      )
]

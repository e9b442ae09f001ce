-- ===== src/Powerup/Expiry.antt =====
-- Which orders the loop of `process_powerup_queue` takes back, and from whom.
use wax_system_contracts.Prelude.{
  ℕ, zero, suc, ◌+◌, ◌-◌, ◌%◌, ◌^◌, ◌≡◌, ◌∙◌, refl, true, Option, false, none, some, ok, ltb, arith,
  if◌then◌else◌, inl, inr, Bool-cases, Option-cases, Result-cases, [], ◌∷◌,
}
use wax_system_contracts.Prelude.Scoped
use wax_system_contracts.Prelude.Scoped.Sum.{IsUnique, erase-IsUnique, erase_absent}
use wax_system_contracts.Asset.{AssetLib}
use wax_system_contracts.Powerup.{PowerupOrder, PowerupLib}
use wax_system_contracts.Powerup.Queue.{Pending, first_expiring, return_order, take_expired}
use wax_system_contracts.Prelude.Int.Uint64.{to_uint64}
use wax_system_contracts.Prelude.Scoped.Total.{total}
use wax_system_contracts.Resources.{quota}
use wax_system_contracts.Powerup.Totals.{Kind, row_weight}
use wax_system_contracts.Powerup.Owners.{owned, return_order-quota, return_order-delta}
use wax_system_contracts.Powerup.Loop.{
  order_weight, delta_available, IsKeyed, first_expiring-find, erase-IsKeyed,
}

-- How many orders have expired.
unfoldable pub count_expired : ℕ → Scoped.Scoped PowerupOrder → ℕ
count_expired now [] = 0
count_expired now ((s, k, o) ∷ rest) = (if ltb now o.expires then 0 else 1) + count_expired now rest

count_expired-erase :
    (now key : ℕ) (o : PowerupOrder) (t : Scoped.Scoped PowerupOrder)
    → IsUnique t
    → Scoped.find 0 key t ≡ some o
    → count_expired now (Scoped.erase 0 key t) + (if ltb now o.expires then 0 else 1)
      ≡ count_expired now t
unfolding count_expired Scoped.find Scoped.erase
count_expired-erase now key o [] unique h = cc
count_expired-erase now key o ((s, k, q) ∷ t) unique h =
    grind (
      arith,
      count_expired-erase now key o t unique.1,
      erase_absent PowerupOrder.net_weight 0 key t,
    )

nothing_first :
    (now : ℕ) (t : Scoped.Scoped PowerupOrder) → first_expiring t ≡ none → count_expired now t ≡ 0
unfolding count_expired first_expiring
nothing_first now [] h = refl
nothing_first now ((s, k, q) ∷ t) h = elim (Option-cases (first_expiring t)) [
  | inl e ↦ absurd (ground arith)
  | inr (p, e) ↦ absurd (ground arith)
]

first_later :
    (now : ℕ) (o : PowerupOrder) (t : Scoped.Scoped PowerupOrder)
    → first_expiring t ≡ some o
    → ltb now o.expires ≡ true
    → count_expired now t ≡ 0
unfolding count_expired first_expiring
first_later now o [] h later = cc
first_later now o ((s, k, q) ∷ t) h later = elim (Option-cases (first_expiring t)) [
  | inl e ↦ ground (arith, nothing_first now t e)
  | inr (p, e) ↦ ground (arith, first_later now p t e)
]

-- An order that has not expired.
abbrev pub live : ℕ → Option PowerupOrder → Option PowerupOrder
live now none = none
live now (some o) = if ltb now o.expires then some o else none

live-erase :
    (now key : ℕ) (o : PowerupOrder) (t : Scoped.Scoped PowerupOrder)
    → Scoped.find 0 o.id t ≡ some o
    → ltb now o.expires ≡ false
    → live now (Scoped.find 0 key (Scoped.erase 0 o.id t)) ≡ live now (Scoped.find 0 key t)
live-erase now key o t found expired = ground (arith, Scoped.find-erase 0 o.id 0 key t)

module _ (lib : AssetLib) (names : PowerupLib) where
  erases :
      (o : PowerupOrder) (p p' : Pending)
      → return_order lib names o p ≡ ok p'
      → p'.orders ≡ Scoped.erase 0 o.id p.orders
  unfolding return_order
  erases o p p' h = ground arith

  one_returned :
      (now : ℕ) (o : PowerupOrder) (p q : Pending) (key : ℕ)
      → IsUnique p.orders
      → Scoped.find 0 o.id p.orders ≡ some o
      → ltb now o.expires ≡ false
      → return_order lib names o p ≡ ok q
      → (count_expired now q.orders + 1 ≡ count_expired now p.orders)
        × (live now (Scoped.find 0 key q.orders) ≡ live now (Scoped.find 0 key p.orders))
  one_returned now o p q key unique found expired h =
      let one_less = count_expired-erase now o.id o p.orders unique found in
      rw (erases o p q h) (ground (arith, one_less), live-erase now key o p.orders found expired)

  -- The loop takes back exactly `max_items` of the expired orders, or all of them where there are
  -- fewer; under each key, an order that has not expired stays as it is, and none appears. As numbers
  -- modulo 2^64, what each account is granted of NET and of CPU falls by what the orders that are
  -- taken back held for it, and what is available again grows by the weights of these orders. Orders
  -- stand under their own, distinct keys.
  pub take_expired_drains :
      (max_items now : ℕ) (p p' : Pending) (key : ℕ) (k : Kind) (account : ℕ)
      → IsKeyed p.orders
      → IsUnique p.orders
      → take_expired lib names max_items now p ≡ ok p'
      → (count_expired now p'.orders ≡ count_expired now p.orders - max_items)
        × (live now (Scoped.find 0 key p'.orders) ≡ live now (Scoped.find 0 key p.orders))
        × ((to_uint64 (quota (row_weight k) account p'.resources)
                + to_uint64 (total (owned k account) p.orders))
              % 2 ^ 64
            ≡ (to_uint64 (quota (row_weight k) account p.resources)
                + to_uint64 (total (owned k account) p'.orders))
              % 2 ^ 64)
        × ((to_uint64 (delta_available k p') + to_uint64 (total (order_weight k) p'.orders))
              % 2 ^ 64
            ≡ (to_uint64 (delta_available k p) + to_uint64 (total (order_weight k) p.orders))
              % 2 ^ 64)
  unfolding take_expired
  take_expired_drains zero now p p' key k account keyed unique h =
      let same : p' ≡ p = ground arith in rw same (omega arith, refl, refl, refl)
  take_expired_drains (suc max_items) now p p' key k account keyed unique h =
      elim (Option-cases (first_expiring p.orders)) [
        | inl empty ↦
            let same : p' ≡ p = ground arith in
            rw same (omega (arith, nothing_first now p.orders empty), refl, refl, refl)
        | inr (o, first) ↦ elim (Bool-cases (ltb now o.expires)) [
          | inl not_yet ↦
              let same : p' ≡ p = ground arith in
              rw same (omega (arith, first_later now o p.orders first not_yet), refl, refl, refl)
          | inr expired ↦ elim (Result-cases (return_order lib names o p)) [
            | inr (_, e) ↦ absurd (ground arith)
            | inl (q, e) ↦
                let step : take_expired lib names max_items now q ≡ ok p' = ground arith in
                let found = first_expiring-find o p.orders keyed unique first in
                let q_is = erases o p q e in
                let (one_less, live_q) = one_returned now o p q key unique found expired e in
                let granted = return_order-quota lib names k account o p q unique found e in
                let (drained, live_rest, granted_rest, sold_rest) =
                  take_expired_drains max_items now q p' key k account
                    (rw q_is (erase-IsKeyed o.id p.orders keyed))
                    (rw q_is (erase-IsUnique 0 o.id p.orders unique)) step in
                (
                  omega (arith, drained, one_less),
                  live_rest ∙ live_q,
                  omega (arith, granted, granted_rest),
                  sold_rest ∙ return_order-delta lib names k o p q unique found e,
                )
          ]
        ]
      ]

-- ===== src/Powerup/Purchase.antt =====
-- What a purchase of `powerup` guarantees.
use wax_system_contracts.Prelude.{
  ℕ, ◌≡◌, refl, Bool, true, ◌||◌, some, ok, arith, if◌then◌else◌, inl, inr, Bool-cases, List, [],
  ◌∷◌,
}
use wax_system_contracts.Prelude.Int.{ℤ, pos, ◌*ℤ◌, ◌≤ℤ◌, leb_ℤ, wrap64, quot_ℤ}
use wax_system_contracts.Prelude.Scoped
use wax_system_contracts.Asset.{Asset, AssetLib, Chain, Transfer}
use wax_system_contracts.Double.{Double}
use wax_system_contracts.Resources.{is_zero}
use wax_system_contracts.Powerup.{
  PowerupStateResource, PowerupState, PowerupOrder, Powerup, PowerupLib, powerup_frac,
}
use wax_system_contracts.Powerup.Sale.{powerup, sell_fraction, check_fee}
use wax_system_contracts.Powerup.Parts.{powerup-Parts, order_of}

-- A resource of which a fraction was bought is not oversold.
abbrev pub is_covered : {D : Type 0} → ℤ → PowerupStateResource D → Bool
is_covered frac res = is_zero frac || leb_ℤ res.utilization res.weight

-- The part of the weight that a fraction stands for.
abbrev pub part_of : {D : Type 0} → ℤ → PowerupStateResource D → ℤ
part_of frac res = wrap64 (quot_ℤ (frac *ℤ res.weight) powerup_frac)

module _ {D : Type 0} (real : Double D) where
  sold_part :
      (frac fee amount fee' : ℤ) (res res' : PowerupStateResource D)
      → sell_fraction real frac fee res ≡ ok (amount, fee', res')
      → (is_covered frac res' ≡ true)
        × (amount ≡ (if is_zero frac then pos 0 else part_of frac res'))
  unfolding sell_fraction
  sold_part frac fee amount fee' res res' h = elim (Bool-cases (is_zero frac)) [
    | inl nothing ↦ ground arith
    | inr some_part ↦ ground arith
  ]

module _ {D : Type 0} (lib : AssetLib) (real : Double D) (names : PowerupLib) where
  -- A purchase that goes through was signed by the payer. It stores an order for the receiver under
  -- the free key, of exactly the asked fractions of the two weights, and sells no resource beyond its
  -- weight; the payer sends one fee to the fees account, which is at least the minimum fee and at most
  -- the payment that it allowed.
  pub powerup_sound :
      (c : Chain) (payer receiver days : ℕ) (net_frac cpu_frac : ℤ) (max_payment : Asset)
      (s t : Powerup D) (xs : List Transfer)
      → powerup lib real names c payer receiver days net_frac cpu_frac max_payment s ≡ ok (xs, t)
      → (state : PowerupState D) × (key : ℕ) × (o : PowerupOrder) × (fee : Asset) × (c.has_auth
            payer
          ≡ true)
        × (t.state ≡ some state)
        × (Scoped.find 0 key t.orders ≡ some o)
        × (o.owner ≡ receiver)
        × (o.expires ≡ names.add_days c.now_sec days)
        × (o.net_weight ≡ (if is_zero net_frac then pos 0 else part_of net_frac state.net))
        × (o.cpu_weight ≡ (if is_zero cpu_frac then pos 0 else part_of cpu_frac state.cpu))
        × (is_covered net_frac state.net ≡ true)
        × (is_covered cpu_frac state.cpu ≡ true)
        × (xs ≡ record { from = payer; to = names.fees_account; quantity = fee } ∷ [])
        × (state.min_powerup_fee.amount ≤ℤ fee.amount)
        × (fee.amount ≤ℤ max_payment.amount)
  unfolding check_fee
  powerup_sound c payer receiver days net_frac cpu_frac max_payment s t xs h =
      let parts =
        powerup-Parts lib real names c payer receiver days net_frac cpu_frac max_payment s t xs h in
      let q = parts.pending_queue in
      let o = order_of names c receiver days parts.net_amount parts.cpu_amount q.orders in
      let net =
        sold_part real net_frac (pos 0) parts.net_amount parts.net_fee parts.state.net parts.net
          parts.net_sold in
      let cpu =
        sold_part real cpu_frac parts.net_fee parts.cpu_amount parts.fee parts.state.cpu parts.cpu
          parts.cpu_sold in
      let fits = parts.fee_fits in
      rw parts.result (
        record parts.state { net = parts.net; cpu = parts.cpu },
        o.id,
        o,
        record { amount = parts.fee; symbol = names.core_symbol },
        parts.signed,
        refl,
        ground (arith, Scoped.find-set 0 o.id 0 o.id o q.orders),
        refl,
        refl,
        net.1,
        cpu.1,
        net.0,
        cpu.0,
        parts.pays,
        ground arith,
        ground arith,
      )

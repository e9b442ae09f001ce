-- ===== src/Powerup/Parts.antt =====
-- The parts of a purchase of `powerup` that goes through.
use wax_system_contracts.Prelude.{
  ℕ, ◌≡◌, true, some, ok, arith, inl, inr, Option-cases, Result-cases, List, [], ◌∷◌,
}
use wax_system_contracts.Prelude.Int.{ℤ, pos, ◌-ℤ◌, wrap64}
use wax_system_contracts.Prelude.Scoped
use wax_system_contracts.Asset.{Asset, AssetLib, Chain, Transfer}
use wax_system_contracts.Double.{Double}
use wax_system_contracts.Resources.{Resources}
use wax_system_contracts.Resources.Grants.{adjust_resources}
use wax_system_contracts.Powerup.{
  PowerupStateResource, PowerupState, PowerupOrder, Powerup, PowerupLib,
}
use wax_system_contracts.Powerup.Queue.{Pending, process_powerup_queue}
use wax_system_contracts.Powerup.Sale.{powerup, sell_fraction, check_order, check_fee, pending}

abbrev pub order_of : PowerupLib → Chain → ℕ → ℕ → ℤ → ℤ → Scoped.Scoped PowerupOrder → PowerupOrder
order_of names c receiver days net_amount cpu_amount orders = record {
  id = names.available_primary_key orders;
  owner = receiver;
  net_weight = net_amount;
  cpu_weight = cpu_amount;
  expires = names.add_days c.now_sec days;
}

-- The market after the queue, the order with its delta, and the fee.
pub record Parts {D : Type 0} (lib : AssetLib) (real : Double D) (names : PowerupLib) (c : Chain)
    (payer receiver days : ℕ) (net_frac cpu_frac : ℤ) (max_payment : Asset) (s t : Powerup D)
    (xs : List Transfer) : Type 0 where
  pub before : PowerupState D
  pub state : PowerupState D
  pub pending_queue : Pending
  pub net_amount : ℤ
  pub cpu_amount : ℤ
  pub net_fee : ℤ
  pub fee : ℤ
  pub net : PowerupStateResource D
  pub cpu : PowerupStateResource D
  pub granted : Resources
  pub resources : Resources
  pub signed : c.has_auth payer ≡ true
  pub has_state : s.state ≡ some before
  pub ordered : check_order names days net_frac cpu_frac max_payment before ≡ ok tt
  pub processed :
      process_powerup_queue lib real names c.now_sec 2 before (pending s)
      ≡ ok (state, pending_queue)
  pub net_sold : sell_fraction real net_frac (pos 0) state.net ≡ ok (net_amount, net_fee, net)
  pub cpu_sold : sell_fraction real cpu_frac net_fee state.cpu ≡ ok (cpu_amount, fee, cpu)
  pub fee_fits :
      check_fee
        (record { amount = fee; symbol = names.core_symbol })
        max_payment
        state.min_powerup_fee
      ≡ ok tt
  pub grants :
      adjust_resources lib names.core_symbol true receiver net_amount cpu_amount
        pending_queue.resources
      ≡ ok granted
  pub settles :
      adjust_resources lib names.core_symbol true names.reserve_account
        (wrap64 (pending_queue.net_delta_available -ℤ net_amount))
        (wrap64 (pending_queue.cpu_delta_available -ℤ cpu_amount))
        granted
      ≡ ok resources
  pub result : t ≡ record s {
    state = some (record state { net = net; cpu = cpu });
    orders =
        Scoped.set 0
          (names.available_primary_key pending_queue.orders)
          (order_of names c receiver days net_amount cpu_amount pending_queue.orders)
          pending_queue.orders;
    resources = resources;
  }
  pub pays :
      xs
      ≡ record {
        from = payer;
        to = names.fees_account;
        quantity = record { amount = fee; symbol = names.core_symbol };
      }
        ∷ []

module _ {D : Type 0} (lib : AssetLib) (real : Double D) (names : PowerupLib) where
  pub powerup-Parts :
      (c : Chain) (payer receiver days : ℕ) (net_frac cpu_frac : ℤ) (max_payment : Asset)
      (s t : Powerup D) (xs : List Transfer)
      → powerup lib real names c payer receiver days net_frac cpu_frac max_payment s ≡ ok (xs, t)
      → Parts lib real names c payer receiver days net_frac cpu_frac max_payment s t xs
  unfolding powerup
  powerup-Parts c payer receiver days net_frac cpu_frac max_payment s t xs h =
      elim (Option-cases s.state) [
        | inl missing ↦ absurd (ground arith)
        | inr (before, has_state) ↦
            elim (Result-cases
              (process_powerup_queue lib real names c.now_sec 2 before (pending s))) [
                | inr (_, e) ↦ absurd (ground arith)
                | inl ((state, p), e) ↦
                    elim (Result-cases (sell_fraction real net_frac (pos 0) state.net)) [
                      | inr (_, e2) ↦ absurd (ground arith)
                      | inl ((net_amount, net_fee, net), e2) ↦
                          elim (Result-cases (sell_fraction real cpu_frac net_fee state.cpu)) [
                            | inr (_, e3) ↦ absurd (ground arith)
                            | inl ((cpu_amount, fee, cpu), e3) ↦
                                elim (Result-cases (
                                  adjust_resources lib names.core_symbol true receiver net_amount
                                    cpu_amount p.resources)) [
                                      | inr (_, e4) ↦ absurd (ground arith)
                                      | inl (granted, e4) ↦
                                          elim (Result-cases (
                                            adjust_resources lib names.core_symbol true
                                              names.reserve_account
                                              (wrap64 (p.net_delta_available -ℤ net_amount))
                                              (wrap64 (p.cpu_delta_available -ℤ cpu_amount))
                                              granted)) [
                                                | inr (_, e5) ↦ absurd (ground arith)
                                                | inl (resources, e5) ↦ record {
                                                  before = before;
                                                  state = state;
                                                  pending_queue = p;
                                                  net_amount = net_amount;
                                                  cpu_amount = cpu_amount;
                                                  net_fee = net_fee;
                                                  fee = fee;
                                                  net = net;
                                                  cpu = cpu;
                                                  granted = granted;
                                                  resources = resources;
                                                  signed = ground arith;
                                                  has_state = has_state;
                                                  ordered = ground arith;
                                                  processed = e;
                                                  net_sold = e2;
                                                  cpu_sold = e3;
                                                  fee_fits = ground arith;
                                                  grants = e4;
                                                  settles = e5;
                                                  result = ground arith;
                                                  pays = ground arith;
                                                }
                                              ]
                                    ]
                          ]
                    ]
              ]
      ]

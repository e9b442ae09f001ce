-- ===== src/Powerup/Steps.antt =====
-- Every action of the resource market keeps its sums.
use wax_system_contracts.Prelude.{
  ℕ, ◌+◌, ◌%◌, ◌^◌, ◌≡◌, sym, ◌∙◌, subst, true, some, Result, ok, ◌>>=◌, arith, inl, inr,
  Option-cases, Result-cases, List, [],
}
use wax_system_contracts.Prelude.Int.{ℤ, pos, ◌-ℤ◌, wrap64}
use wax_system_contracts.Prelude.Int.Uint64.{to_uint64}
use wax_system_contracts.Prelude.Scoped
use wax_system_contracts.Asset.{Asset, AssetLib, Chain, Transfer}
use wax_system_contracts.Double.{Double}
use wax_system_contracts.Resources.Grants.{adjust_resources}
use wax_system_contracts.Powerup.{Powerup, PowerupLib}
use wax_system_contracts.Powerup.Queue.{Pending, process_powerup_queue}
use wax_system_contracts.Powerup.Sale.{powerupexec, powerup, pending}
use wax_system_contracts.Powerup.Config.{PowerupConfig, cfgpowerup}
use wax_system_contracts.Powerup.Setup.{cfgpowerup-IsBalanced}
use wax_system_contracts.Powerup.Parts.{Parts, powerup-Parts, order_of}
use wax_system_contracts.Powerup.Totals.{Kind, net_kind, cpu_kind, delta_of}
use wax_system_contracts.Powerup.Balance.{IsBalanced, resource_of, queue-IsUnsettled}
use wax_system_contracts.Powerup.Settle.{
  PowerupLaws, reserve-IsBalanced, sale-IsUnsettled, sell_fraction-sums,
}

-- The actions on the market.
pub data Op (D : Type 0) : Type 0 where
  configures : PowerupConfig D → Op D
  executes : ℕ → ℕ → Op D
  powers_up : ℕ → ℕ → ℕ → ℤ → ℤ → Asset → Op D

module _ {D : Type 0} (lib : AssetLib) (real : Double D) (names : PowerupLib) where
  unfoldable pub apply : Chain → Op D → Powerup D → Result (List Transfer × Powerup D)
  apply c (configures args) s = do t ← cfgpowerup real lib names c args s; ok ([], t)
  apply c (executes user max_items) s = do
    t ← powerupexec lib real names c user max_items s
    ok ([], t)
  apply c (powers_up payer receiver days net_frac cpu_frac max_payment) s =
      powerup lib real names c payer receiver days net_frac cpu_frac max_payment s

module _ {D : Type 0} (lib : AssetLib) (real : Double D) (names : PowerupLib)
    (laws : PowerupLaws names) (k : Kind) (others : ℕ) where
  powerupexec-IsBalanced :
      (c : Chain) (user max_items : ℕ) (s t : Powerup D)
      → IsBalanced k others s
      → powerupexec lib real names c user max_items s ≡ ok t
      → IsBalanced k others t
  unfolding powerupexec
  powerupexec-IsBalanced c user max_items s t b h = elim (Option-cases s.state) [
    | inl missing ↦ absurd (ground arith)
    | inr (state₀, has_state) ↦
        elim (Result-cases
          (process_powerup_queue lib real names c.now_sec max_items state₀ (pending s))) [
            | inr (_, e) ↦ absurd (ground arith)
            | inl ((state, p), e) ↦
                elim (Result-cases (
                  adjust_resources lib names.core_symbol true names.reserve_account
                    p.net_delta_available p.cpu_delta_available p.resources)) [
                      | inr (_, e2) ↦ absurd (ground arith)
                      | inl (r, e2) ↦
                          let t_is : t
                              ≡ record { state = some state; orders = p.orders; resources = r } =
                            ground arith in
                          let unsettled =
                            queue-IsUnsettled lib real names k others c.now_sec max_items state₀
                              state s p b has_state e in
                          subst (IsBalanced k others) (sym t_is)
                            (reserve-IsBalanced lib names k others state p r unsettled e2)
                    ]
          ]
  ]

  powerup-IsBalanced :
      (c : Chain) (payer receiver days : ℕ) (net_frac cpu_frac : ℤ) (max_payment : Asset)
      (s t : Powerup D) (xs : List Transfer)
      → IsBalanced k others s
      → powerup lib real names c payer receiver days net_frac cpu_frac max_payment s ≡ ok (xs, t)
      → IsBalanced k others t
  unfolding powerup
  powerup-IsBalanced c payer receiver days net_frac cpu_frac max_payment s t xs b h =
      let parts =
        powerup-Parts lib real names c payer receiver days net_frac cpu_frac max_payment s t xs h in
      let p = parts.pending_queue in
      let o = order_of names c receiver days parts.net_amount parts.cpu_amount p.orders in
      let unsettled =
        queue-IsUnsettled lib real names k others c.now_sec 2 parts.before parts.state s p b
          parts.has_state parts.processed in
      let state' = record parts.state { net = parts.net; cpu = parts.cpu } in
      let p' : Pending = record {
        orders = Scoped.set 0 o.id o p.orders;
        resources = parts.granted;
        net_delta_available = wrap64 (p.net_delta_available -ℤ parts.net_amount);
        cpu_delta_available = wrap64 (p.cpu_delta_available -ℤ parts.cpu_amount);
      } in
      let sold =
        sale-IsUnsettled lib names k others parts.state state' p o parts.granted unsettled
          (laws.key_is_free p.orders) (sums k parts) parts.grants in
      subst (IsBalanced k others) (sym parts.result)
        (reserve-IsBalanced lib names k others state' p' parts.resources sold parts.settles)
    where
      sums :
          (j : Kind)
          (parts : Parts lib real names c payer receiver days net_frac cpu_frac max_payment s t xs)
          → (to_uint64
                (resource_of j
                  (record parts.state { net = parts.net; cpu = parts.cpu })).utilization
              ≡ (to_uint64 (resource_of j parts.state).utilization
                  + to_uint64 (delta_of j parts.net_amount parts.cpu_amount))
                % 2 ^ 64)
            × ((resource_of j (record parts.state { net = parts.net; cpu = parts.cpu })).weight
                ≡ (resource_of j parts.state).weight)
      sums net_kind parts =
          sell_fraction-sums real net_frac (pos 0) parts.net_amount parts.net_fee parts.state.net
            parts.net parts.net_sold
      sums cpu_kind parts =
          sell_fraction-sums real cpu_frac parts.net_fee parts.cpu_amount parts.fee parts.state.cpu
            parts.cpu parts.cpu_sold

  -- Every action of the market, the first configuration included, keeps its sums: the utilization of a
  -- resource is the sum of the orders, and the grants of all accounts grow and shrink exactly as the
  -- weight of the market does. Sums are modulo 2^64, as the int64_t numbers are.
  pub apply-IsBalanced :
      (c : Chain) (op : Op D) (s t : Powerup D) (xs : List Transfer)
      → IsBalanced k others s
      → apply lib real names c op s ≡ ok (xs, t)
      → IsBalanced k others t
  unfolding apply
  apply-IsBalanced c (configures args) s t xs b h =
      elim (Result-cases (cfgpowerup real lib names c args s)) [
        | inr (_, e) ↦ absurd (ground arith)
        | inl (t', e) ↦
            cfgpowerup-IsBalanced real lib names k others c args s t b (e ∙ ground arith)
      ]
  apply-IsBalanced c (executes user max_items) s t xs b h =
      elim (Result-cases (powerupexec lib real names c user max_items s)) [
        | inr (_, e) ↦ absurd (ground arith)
        | inl (t', e) ↦ powerupexec-IsBalanced c user max_items s t b (e ∙ ground arith)
      ]
  apply-IsBalanced c (powers_up payer receiver days net_frac cpu_frac max_payment) s t xs b h =
      powerup-IsBalanced c payer receiver days net_frac cpu_frac max_payment s t xs b h

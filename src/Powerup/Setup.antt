-- ===== src/Powerup/Setup.antt =====
-- How `cfgpowerup` changes the sums of the resource market.
use wax_system_contracts.Prelude.{
  ℕ, ◌+◌, ◌%◌, ◌^◌, ◌≡◌, ap, sym, ◌∙◌, subst, true, Option, none, some, ok, arith, inl, inr,
  Option-cases, Result-cases,
}
use wax_system_contracts.Prelude.Int.{ℤ, pos}
use wax_system_contracts.Prelude.Int.Uint64.{to_uint64}
use wax_system_contracts.Asset.{Symbol, AssetLib, Chain}
use wax_system_contracts.Double.{Double}
use wax_system_contracts.Resources.{Resources}
use wax_system_contracts.Resources.Grants.{adjust_resources}
use wax_system_contracts.Powerup.{PowerupStateResource, PowerupState, Powerup, PowerupLib}
use wax_system_contracts.Powerup.Curve.{update_weight, update_utilization}
use wax_system_contracts.Powerup.Queue.{Pending}
use wax_system_contracts.Powerup.Config.{
  PowerupConfig, PowerupConfigResource, settle, configure, start_state, cfgpowerup, check_resource,
  value_or,
}
use wax_system_contracts.Powerup.Totals.{Kind, net_kind, cpu_kind, delta_of}
use wax_system_contracts.Powerup.Loop.{update_weight-sums}
use wax_system_contracts.Powerup.Balance.{
  IsBalanced, IsUnsettled, resource_of, utilization_of, weight_of, update_utilization-same,
}
use wax_system_contracts.Powerup.Settle.{reserve-IsBalanced}

-- The delta and the weight of a resource before, and those after.
abbrev Moves : ℤ → ℤ → ℤ → ℤ → Type 0
Moves delta weight delta' weight' =
    (to_uint64 delta' + to_uint64 weight) % 2 ^ 64 ≡ (to_uint64 delta + to_uint64 weight') % 2 ^ 64

module _ {D : Type 0} (real : Double D) where
  -- A new configuration has passed the checks, starts at this time and leaves the amounts alone.
  pub configured :
      (core : Symbol) (now : ℕ) (args : PowerupConfigResource D) (res res' : PowerupStateResource D)
      → configure real core now args res ≡ ok res'
      → (check_resource real core res' ≡ ok tt)
        × (res'.initial_timestamp ≡ now)
        × (res'.utilization ≡ res.utilization)
        × (res'.weight ≡ res.weight)
  unfolding configure
  configured core now args res res' h = ground arith

  settle-sums :
      (now : ℕ) (delta delta' : ℤ) (res res' : PowerupStateResource D)
      → settle real now delta res ≡ ok (delta', res')
      → Moves delta res.weight delta' res'.weight × (res'.utilization ≡ res.utilization)
  unfolding settle
  settle-sums now delta delta' res res' h = elim (Result-cases (update_weight now delta res)) [
    | inr (_, e) ↦ absurd (ground arith)
    | inl ((d, r), e) ↦
        let d_is : delta' ≡ d = ground arith in
        let w_is : res'.weight ≡ r.weight = ground arith in
        let u_is : res'.utilization ≡ r.utilization = ground arith in
        rw (d_is, w_is, u_is) (update_weight-sums now delta d res r e)
  ]

  updated_sums :
      (now : ℕ) (delta : ℤ) (res res' : PowerupStateResource D)
      → update_weight now (pos 0) (update_utilization real now res) ≡ ok (delta, res')
      → Moves (pos 0) res.weight delta res'.weight × (res'.utilization ≡ res.utilization)
  updated_sums now delta res res' e =
      let (moves, same) =
        update_weight-sums now (pos 0) delta (update_utilization real now res) res' e in
      let before = update_utilization-same real now res in
      (omega (arith, moves, ap to_uint64 before.1), same ∙ before.0)

  start_state-sums :
      (k : Kind) (now : ℕ) (old : Option (PowerupState D)) (net cpu : ℤ) (state : PowerupState D)
      → start_state real now old ≡ ok (net, cpu, state)
      → Moves (pos 0) (weight_of k old) (delta_of k net cpu) (resource_of k state).weight
        × ((resource_of k state).utilization ≡ utilization_of k old)
  unfolding start_state
  start_state-sums net_kind now none net cpu state h = ground arith
  start_state-sums cpu_kind now none net cpu state h = ground arith
  start_state-sums k now (some old) net cpu state h =
      elim (Result-cases (update_weight now (pos 0) (update_utilization real now old.net))) [
        | inr (_, e) ↦ absurd (ground arith)
        | inl ((d, n), e) ↦
            elim (Result-cases (update_weight now (pos 0) (update_utilization real now old.cpu))) [
              | inr (_, e2) ↦ absurd (ground arith)
              | inl ((d2, n2), e2) ↦
                  let net_is : net ≡ d = ground arith in
                  let cpu_is : cpu ≡ d2 = ground arith in
                  let state_is : state ≡ record old { net = n; cpu = n2 } = ground arith in
                  rw (net_is, cpu_is, state_is)
                    (elim k
                      as (λ j.
                        Moves (pos 0) (weight_of j (some old)) (delta_of j d d2)
                          (resource_of j (record old { net = n; cpu = n2 })).weight
                        × ((resource_of j (record old { net = n; cpu = n2 })).utilization
                            ≡ utilization_of j (some old))) [
                              | net_kind ↦ updated_sums now d old.net n e
                              | cpu_kind ↦ updated_sums now d2 old.cpu n2 e2
                            ])
            ]
      ]

abbrev pub args_of : {D : Type 0} → Kind → PowerupConfig D → PowerupConfigResource D
args_of net_kind args = args.net
args_of cpu_kind args = args.cpu

-- The parts of a `cfgpowerup` that goes through, for one resource: its delta and its data before,
-- with the new configuration, and at the end.
pub record Setup {D : Type 0} (real : Double D) (lib : AssetLib) (names : PowerupLib) (k : Kind)
    (now : ℕ) (args : PowerupConfig D) (s t : Powerup D) : Type 0 where
  pub started : ℤ × ℤ × PowerupState D
  pub res : PowerupStateResource D
  pub net_delta : ℤ
  pub cpu_delta : ℤ
  pub state : PowerupState D
  pub resources : Resources
  pub starts : start_state real now s.state ≡ ok started
  pub configures :
      configure real names.core_symbol now (args_of k args) (resource_of k started.2) ≡ ok res
  pub settles :
      settle real now (delta_of k started.0 started.1) res
      ≡ ok (delta_of k net_delta cpu_delta, resource_of k state)
  pub adjusts :
      adjust_resources lib names.core_symbol true names.reserve_account net_delta cpu_delta
        s.resources
      ≡ ok resources
  pub result : t ≡ record s { state = some state; resources = resources }

module _ {D : Type 0} (real : Double D) (lib : AssetLib) (names : PowerupLib) where
  pub cfgpowerup-Setup :
      (k : Kind) (c : Chain) (args : PowerupConfig D) (s t : Powerup D)
      → cfgpowerup real lib names c args s ≡ ok t
      → Setup real lib names k c.now_sec args s t
  unfolding cfgpowerup
  cfgpowerup-Setup k c args s t h =
      let core = names.core_symbol in
      let now = c.now_sec in
      elim (Result-cases (start_state real now s.state)) [
        | inr (_, e) ↦ absurd (ground arith)
        | inl ((nd, cd, before), e) ↦
            elim (Result-cases (configure real core now args.net before.net)) [
              | inr (_, e2) ↦ absurd (ground arith)
              | inl (n, e2) ↦ elim (Result-cases (configure real core now args.cpu before.cpu)) [
                | inr (_, e3) ↦ absurd (ground arith)
                | inl (p, e3) ↦ elim (Result-cases (settle real now nd n)) [
                  | inr (_, e4) ↦ absurd (ground arith)
                  | inl ((nd2, n2), e4) ↦ elim (Result-cases (settle real now cd p)) [
                    | inr (_, e5) ↦ absurd (ground arith)
                    | inl ((cd2, p2), e5) ↦
                        elim (Result-cases (
                          adjust_resources lib core true names.reserve_account nd2 cd2
                            s.resources)) [
                              | inr (_, e6) ↦ absurd (ground arith)
                              | inl (r, e6) ↦
                                  let state : PowerupState D = record {
                                    net = n2;
                                    cpu = p2;
                                    powerup_days = value_or before.powerup_days args.powerup_days;
                                    min_powerup_fee =
                                        value_or before.min_powerup_fee args.min_powerup_fee;
                                  } in
                                  let t_is : t ≡ record s { state = some state; resources = r } =
                                    elim (Option-cases args.min_powerup_fee) [
                                      | inl missing ↦ ground arith
                                      | inr (a, given) ↦ ground arith
                                    ] in
                                  elim k as (λ j. Setup real lib names j now args s t) [
                                    | net_kind ↦ record {
                                      started = (nd, cd, before);
                                      res = n;
                                      net_delta = nd2;
                                      cpu_delta = cd2;
                                      state = state;
                                      resources = r;
                                      starts = e;
                                      configures = e2;
                                      settles = e4;
                                      adjusts = e6;
                                      result = t_is;
                                    }
                                    | cpu_kind ↦ record {
                                      started = (nd, cd, before);
                                      res = p;
                                      net_delta = nd2;
                                      cpu_delta = cd2;
                                      state = state;
                                      resources = r;
                                      starts = e;
                                      configures = e3;
                                      settles = e5;
                                      adjusts = e6;
                                      result = t_is;
                                    }
                                  ]
                            ]
                  ]
                ]
              ]
            ]
      ]

  pub cfgpowerup-IsBalanced :
      (k : Kind) (others : ℕ) (c : Chain) (args : PowerupConfig D) (s t : Powerup D)
      → IsBalanced k others s
      → cfgpowerup real lib names c args s ≡ ok t
      → IsBalanced k others t
  cfgpowerup-IsBalanced k others c args s t b h =
      let parts = cfgpowerup-Setup k c args s t h in
      let now = c.now_sec in
      let (nd, cd, before) = parts.started in
      let (moves, same) = start_state-sums real k now s.state nd cd before parts.starts in
      let (passed, time, same_use, same_weight) =
        configured real names.core_symbol now (args_of k args) (resource_of k before) parts.res
          parts.configures in
      let last = delta_of k parts.net_delta parts.cpu_delta in
      let (moves2, same2) =
        settle-sums real now (delta_of k nd cd) last parts.res (resource_of k parts.state)
          parts.settles in
      let p : Pending = record {
        orders = s.orders;
        resources = s.resources;
        net_delta_available = parts.net_delta;
        cpu_delta_available = parts.cpu_delta;
      } in
      let unsettled : IsUnsettled k others parts.state p = record {
        unique = b.unique;
        unique_orders = b.unique_orders;
        keyed = b.keyed;
        sold = b.sold ∙ ap to_uint64 (sym (same2 ∙ same_use ∙ same));
        granted = omega (arith, b.granted, moves, moves2, ap to_uint64 same_weight);
      } in
      subst (IsBalanced k others) (sym parts.result) (
        reserve-IsBalanced lib names k others parts.state p parts.resources unsettled parts.adjusts)

-- ===== src/Powerup/Weight.antt =====
-- What a configuration guarantees of the weights of the market.
use wax_system_contracts.Prelude.{
  ℕ, ◌*◌, ◌/◌, ◌^◌, ◌≡◌, ◌≤◌, ◌<◌, ap, sym, ◌∙◌, some, ok, subst, arith,
}
use wax_system_contracts.Prelude.Int.{ℤ, pos, pos_part, ◌+ℤ◌, ◌-ℤ◌, ◌*ℤ◌, ◌≤ℤ◌, wrap64}
use wax_system_contracts.Asset.{Symbol, AssetLib, Chain}
use wax_system_contracts.Double.{Double}
use wax_system_contracts.Powerup.{
  PowerupStateResource, PowerupState, Powerup, PowerupLib, powerup_frac, quotient,
}
use wax_system_contracts.Powerup.Curve.{update_weight}
use wax_system_contracts.Powerup.Config.{PowerupConfig, check_resource, settle, cfgpowerup}
use wax_system_contracts.Powerup.Totals.{Kind, delta_of}
use wax_system_contracts.Powerup.Balance.{resource_of}
use wax_system_contracts.Powerup.Setup.{cfgpowerup-Setup, configured, args_of}
use wax_system_contracts.Powerup.Shrink.{
  IsConfigured, update_weight_bounds, stake_times, quotient_pos, quot_pos,
}

largest :
    (a g : ℤ) (m n : ℕ)
    → a ≡ pos m
    → g ≡ pos n
    → 0 < n
    → quotient (a *ℤ pos powerup_frac) g ≡ ok (pos (m * powerup_frac / n))
largest a g m n a_is g_is positive =
    rw (a_is, g_is, stake_times m)
      (quotient_pos (pos (m * powerup_frac)) n positive ∙ ap ok (quot_pos (m * powerup_frac) n))

module _ {D : Type 0} (real : Double D) where
  checked-IsConfigured :
      (core : Symbol) (res : PowerupStateResource D)
      → check_resource real core res ≡ ok tt
      → IsConfigured res
  unfolding check_resource
  checked-IsConfigured core res h =
      let i = res.initial_weight_ratio in
      let g = res.target_weight_ratio in
      let a = res.assumed_stake_weight in
      let a_is : a ≡ pos (pos_part a) = ground arith in
      let g_is : g ≡ pos (pos_part g) = ground arith in
      let positive : 0 < pos_part g = ground arith in
      let product = pos_part a * powerup_frac in
      let divided : quotient (a *ℤ pos powerup_frac) g ≡ ok (pos (product / pos_part g)) =
        largest a g (pos_part a) (pos_part g) a_is g_is positive in
      record {
        initial = pos_part i;
        target = pos_part g;
        stake = pos_part a;
        initial_is = ground arith;
        target_is = g_is;
        stake_is = a_is;
        initial_small = ground arith;
        target_positive = positive;
        target_below = ground arith;
        largest_fits = ground arith;
      }

  -- `settle` keeps the configuration, and leaves a utilization that the weight covers.
  settled :
      (now : ℕ) (delta delta' : ℤ) (res res' : PowerupStateResource D)
      → settle real now delta res ≡ ok (delta', res')
      → (res'.utilization ≤ℤ res'.weight)
        × (res'.adjusted_utilization ≤ℤ res'.weight)
        × (res'.initial_weight_ratio ≡ res.initial_weight_ratio)
        × (res'.target_weight_ratio ≡ res.target_weight_ratio)
        × (res'.assumed_stake_weight ≡ res.assumed_stake_weight)
        × (res'.initial_timestamp ≡ res.initial_timestamp)
  unfolding settle update_weight
  settled now delta delta' res res' h = ground arith

-- The weight of a resource now is covered, and at another time it is in its bounds.
abbrev pub IsSound : {D : Type 0} → Kind → ℕ → ℤ → PowerupState D → Type 0
IsSound k now delta state =
    (initial : ℕ) × (target : ℕ) × (ratio : ℕ) × (weight : ℕ) × ((resource_of k state).utilization
      ≤ℤ (resource_of k state).weight)
    × ((resource_of k state).adjusted_utilization ≤ℤ (resource_of k state).weight)
    × ((resource_of k state).initial_weight_ratio ≡ pos initial)
    × ((resource_of k state).target_weight_ratio ≡ pos target)
    × (update_weight now delta (resource_of k state)
        ≡ ok (
          wrap64 (delta +ℤ wrap64 (pos weight -ℤ (resource_of k state).weight)),
          record (resource_of k state) { weight_ratio = pos ratio; weight = pos weight },
        ))
    × (0 < target)
    × (target ≤ ratio)
    × (ratio ≤ initial)
    × (initial ≤ powerup_frac)
    × (weight < 2 ^ 63)

module _ {D : Type 0} (real : Double D) (lib : AssetLib) (names : PowerupLib) where
  -- After a configuration the market has not sold more of a resource than its weight, which also bounds
  -- the adjusted utilization. From then on, as long as time and the target are numbers of 32 bits, the
  -- weight is computed at any time without a failure, with a ratio between the target and the one
  -- configured, and without an overflow.
  pub cfgpowerup-IsSound :
      (k : Kind) (c : Chain) (args : PowerupConfig D) (s t : Powerup D) (state : PowerupState D)
      (now : ℕ) (delta : ℤ)
      → cfgpowerup real lib names c args s ≡ ok t
      → t.state ≡ some state
      → c.now_sec ≤ now
      → (resource_of k state).target_timestamp < 2 ^ 32
      → IsSound k now delta state
  cfgpowerup-IsSound k c args s t state now delta h has_state later fits =
      let parts = cfgpowerup-Setup real lib names k c args s t h in
      let same : parts.state ≡ state = ground (arith, parts.result, has_state) in
      let old = resource_of k parts.started.2 in
      let res = resource_of k parts.state in
      let (passed, time, use_is, same_weight) =
        configured real names.core_symbol c.now_sec (args_of k args) old parts.res
          parts.configures in
      let (covered, adjusted, initial_is, target_is, stake_is, time_is) =
        settled real c.now_sec (delta_of k parts.started.0 parts.started.1)
          (delta_of k parts.net_delta parts.cpu_delta) parts.res res parts.settles in
      let checked = checked-IsConfigured real names.core_symbol parts.res passed in
      let conf : IsConfigured res = record {
        initial = checked.initial;
        target = checked.target;
        stake = checked.stake;
        initial_small = checked.initial_small;
        target_positive = checked.target_positive;
        target_below = checked.target_below;
        largest_fits = checked.largest_fits;
        initial_is = initial_is ∙ checked.initial_is;
        target_is = target_is ∙ checked.target_is;
        stake_is = stake_is ∙ checked.stake_is;
      } in
      let fits' = subst (λ x. (resource_of k x).target_timestamp < 2 ^ 32) (sym same) fits in
      let (ratio, weight, updated, above, below, small) =
        update_weight_bounds now res delta conf (subst (λ x. x ≤ now) (sym (time_is ∙ time)) later)
          fits' in
      subst (IsSound k now delta) same (
        conf.initial, conf.target, ratio, weight, covered, adjusted, conf.initial_is,
        conf.target_is, updated, conf.target_positive, above, below, conf.initial_small, small,
      )

-- ===== src/Powerup/Shrink.antt =====
-- The weight of the market at any time after a configuration.
use native.Mathlib.Nat
use wax_system_contracts.Prelude.{
  ℕ, zero, suc, ◌-◌, ◌*◌, ◌/◌, ◌^◌, ◌≡◌, ◌≤◌, ◌<◌, refl, ap, ◌∙◌, ok, arith, leb, inl, inr,
  Bool-cases,
}
use wax_system_contracts.Prelude.Int.{ℤ, pos, ◌+ℤ◌, ◌-ℤ◌, ◌*ℤ◌, quot_ℤ, wrap64}
use wax_system_contracts.Powerup.{PowerupStateResource, powerup_frac, quotient}
use wax_system_contracts.Powerup.Curve.{current_ratio, update_weight, elapsed}

part-le : (k e t : ℕ) → e ≤ t → k * e / t ≤ k
part-le k e t less =
    Nat.div-le_of_le-mul t (omega (arith, Nat.mul-le-mul_left k less, Nat.mul_comm k t))

opposite_times : (k e : ℕ) → (pos 0 -ℤ pos k) *ℤ pos e ≡ pos 0 -ℤ pos (k * e)
unfolding ◌-ℤ◌ ◌*ℤ◌
opposite_times k e = ground arith

opposite_quot : (m t : ℕ) → quot_ℤ (pos 0 -ℤ pos m) t ≡ pos 0 -ℤ pos (m / t)
unfolding ◌-ℤ◌ quot_ℤ
opposite_quot m t = ground arith

change_is : (i g : ℕ) → g ≤ i → i < 2 ^ 63 → wrap64 (pos g -ℤ pos i) ≡ pos 0 -ℤ pos (i - g)
unfolding ◌-ℤ◌ wrap64
change_is i g below small = ground arith

moved : (i x : ℕ) → x ≤ i → i < 2 ^ 63 → wrap64 (pos i +ℤ (pos 0 -ℤ pos x)) ≡ pos (i - x)
unfolding ◌-ℤ◌ ◌+ℤ◌ wrap64
moved i x below small = ground arith

pub stake_times : (a : ℕ) → pos a *ℤ pos powerup_frac ≡ pos (a * powerup_frac)
unfolding ◌*ℤ◌
stake_times a = ground arith

weight_is : (q a : ℕ) → a ≤ q → q < 2 ^ 63 → wrap64 (pos q -ℤ pos a) ≡ pos (q - a)
unfolding ◌-ℤ◌ wrap64
weight_is q a below small = ground arith

pub quotient_pos : (a : ℤ) (d : ℕ) → 0 < d → quotient a (pos d) ≡ ok (quot_ℤ a d)
unfolding quotient
quotient_pos a zero positive = ground arith
quotient_pos a (suc d) positive = ground arith

-- A resource as `cfgpowerup` leaves it: its ratios, and the weight that is assumed to be staked.
pub record IsConfigured {D : Type 0} (res : PowerupStateResource D) : Type 0 where
  pub initial : ℕ
  pub target : ℕ
  pub stake : ℕ
  pub initial_is : res.initial_weight_ratio ≡ pos initial
  pub target_is : res.target_weight_ratio ≡ pos target
  pub stake_is : res.assumed_stake_weight ≡ pos stake
  pub initial_small : initial ≤ powerup_frac
  pub target_positive : 0 < target
  pub target_below : target ≤ initial
  pub largest_fits : stake * powerup_frac / target < 2 ^ 63

pub quot_pos : (m t : ℕ) → quot_ℤ (pos m) t ≡ pos (m / t)
unfolding quot_ℤ
quot_pos m t = refl

module _ {D : Type 0} (now : ℕ) (res : PowerupStateResource D) where
  ratio_between :
      (conf : IsConfigured res)
      → res.initial_timestamp ≤ now
      → res.target_timestamp < 2 ^ 32
      → (ratio : ℕ) × (current_ratio now res ≡ ok (pos ratio))
        × (conf.target ≤ ratio)
        × (ratio ≤ conf.initial)
  unfolding current_ratio
  ratio_between conf started fits = elim (Bool-cases (leb res.target_timestamp now)) [
    | inl over ↦ (conf.target, ground (arith, conf.target_is), omega arith, conf.target_below)
    | inr during ↦
        let i = conf.initial in
        let g = conf.target in
        let e = now - res.initial_timestamp in
        let t = res.target_timestamp - res.initial_timestamp in
        let x = (i - g) * e / t in
        let now_is : elapsed now res.initial_timestamp ≡ e = ground arith in
        let target_is : elapsed res.target_timestamp res.initial_timestamp ≡ t = ground arith in
        let small = conf.initial_small in
        let below = conf.target_below in
        let shorter : e ≤ t = ground arith in
        let positive : 0 < t = ground arith in
        let x_le = part-le (i - g) e t shorter in
        let part_is : quotient (wrap64 (pos g -ℤ pos i) *ℤ pos e) (pos t) ≡ ok (pos 0 -ℤ pos x) =
          rw
            (
              change_is i g below (omega arith),
              opposite_times (i - g) e,
              quotient_pos (pos 0 -ℤ pos ((i - g) * e)) t positive,
              opposite_quot ((i - g) * e) t,
            )
            refl in
        let new_is = moved i x (omega arith) (omega arith) in
        (
          i - x,
          rw (during, conf.initial_is, conf.target_is, now_is, target_is, part_is, new_is) refl,
          omega arith,
          omega arith,
        )
  ]

  stake-le : (a r : ℕ) → 0 < r → r ≤ powerup_frac → a ≤ a * powerup_frac / r
  stake-le a r positive small = (Nat.le-div_iff_mul-le positive).1 (Nat.mul-le-mul_left a small)

  quotient_le : (m r g : ℕ) → 0 < g → g ≤ r → m / r ≤ m / g
  quotient_le m r g positive below =
      (Nat.le-div_iff_mul-le positive).1
        (omega (arith, Nat.mul-le-mul_left (m / r) below, Nat.div-mul-le_self m r))

  -- At any time after its configuration the weight of a resource is computed without a failure: the
  -- ratio is between the target and the initial one, and the weight neither overflows nor falls below
  -- zero.
  pub update_weight_bounds :
      (delta : ℤ) (conf : IsConfigured res)
      → res.initial_timestamp ≤ now
      → res.target_timestamp < 2 ^ 32
      → (ratio : ℕ) × (weight : ℕ) × (update_weight now delta res
          ≡ ok (
            wrap64 (delta +ℤ wrap64 (pos weight -ℤ res.weight)),
            record res { weight_ratio = pos ratio; weight = pos weight },
          ))
        × (conf.target ≤ ratio)
        × (ratio ≤ conf.initial)
        × (weight < 2 ^ 63)
  unfolding update_weight
  update_weight_bounds delta conf started fits =
      let (r, r_is, above, below) = ratio_between conf started fits in
      let a = conf.stake in
      let whole = a * powerup_frac / r in
      let positive : 0 < r = omega (arith, above, conf.target_positive) in
      let at_least = stake-le a r positive (omega (arith, below, conf.initial_small)) in
      let fits = quotient_le (a * powerup_frac) r conf.target conf.target_positive above in
      let small : whole < 2 ^ 63 = omega (arith, fits, conf.largest_fits) in
      let divided : quotient (pos (a * powerup_frac)) (pos r) ≡ ok (pos whole) =
        quotient_pos (pos (a * powerup_frac)) r positive ∙ ap ok (quot_pos (a * powerup_frac) r) in
      (
        r,
        whole - a,
        rw (r_is, conf.stake_is, stake_times a, divided, weight_is whole a at_least small) refl,
        above,
        below,
        omega arith,
      )

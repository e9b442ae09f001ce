-- ===== src/Powerup/Curve.antt =====
-- src/powerup.cpp: how a resource of the market changes with time, and the fee for a part of it.
use wax_system_contracts.Prelude.{ℕ, ◌+◌, ◌-◌, ◌%◌, ◌^◌, Result, ok, ◌>>=◌, leb, if◌then◌else◌}
use wax_system_contracts.Prelude.Int.{ℤ, pos, ◌+ℤ◌, ◌-ℤ◌, ◌*ℤ◌, ltb_ℤ, leb_ℤ, wrap64}
use wax_system_contracts.Double.{Double}
use wax_system_contracts.Powerup.{PowerupStateResource, powerup_frac, quotient}

-- A uint32_t difference of two times.
abbrev pub elapsed : ℕ → ℕ → ℕ
elapsed later earlier = (later + 2 ^ 32 - earlier) % 2 ^ 32

-- `std::clamp` to the range from 0 to `high`
abbrev pub clamp : ℤ → ℤ → ℤ
clamp value high = if ltb_ℤ value (pos 0) then pos 0 else if ltb_ℤ high value then high else value

abbrev pub min_ℤ : ℤ → ℤ → ℤ
min_ℤ a b = if ltb_ℤ b a then b else a

module _ {D : Type 0} where
  unfoldable pub current_ratio : ℕ → PowerupStateResource D → Result ℤ
  current_ratio now res = if leb res.target_timestamp now then ok res.target_weight_ratio else (do
    let change = wrap64 (res.target_weight_ratio -ℤ res.initial_weight_ratio)
    part ←
        quotient (change *ℤ pos (elapsed now res.initial_timestamp))
          (pos (elapsed res.target_timestamp res.initial_timestamp))
    ok (wrap64 (res.initial_weight_ratio +ℤ part)))

  -- `update_weight`, with the new value of `delta_available`. The products are of 128 bits, which no
  -- two factors of 64 bits exceed.
  unfoldable pub update_weight :
      ℕ → ℤ → PowerupStateResource D → Result (ℤ × PowerupStateResource D)
  update_weight now delta_available res = do
    ratio ← current_ratio now res
    whole ← quotient (res.assumed_stake_weight *ℤ pos powerup_frac) ratio
    let new_weight = wrap64 (whole -ℤ res.assumed_stake_weight)
    ok (
      wrap64 (delta_available +ℤ wrap64 (new_weight -ℤ res.weight)),
      record res { weight_ratio = ratio; weight = new_weight },
    )

module _ {D : Type 0} (real : Double D) where
  unfoldable pub update_utilization : ℕ → PowerupStateResource D → PowerupStateResource D
  update_utilization now res =
      if leb now res.utilization_timestamp
      then res
      else if leb_ℤ res.adjusted_utilization res.utilization
      then record res { adjusted_utilization = res.utilization; utilization_timestamp = now }
      else let diff = wrap64 (res.adjusted_utilization -ℤ res.utilization) in
        let rate = real.exp (
          real.over (real.negate (real.of_int (pos (elapsed now res.utilization_timestamp))))
            (real.of_int (pos res.decay_secs))) in
        let delta = clamp (real.to_int (real.times (real.of_int diff) rate)) diff in
        record res {
          adjusted_utilization = wrap64 (res.utilization +ℤ delta);
          utilization_timestamp = now;
        }

  unfoldable pub price_integral_delta : PowerupStateResource D → ℤ → ℤ → D
  price_integral_delta state start_utilization end_utilization =
      let min_price = real.of_int state.min_price.amount in
      let weight = real.of_int state.weight in
      let coefficient =
        real.over (real.of_int (wrap64 (state.max_price.amount -ℤ state.min_price.amount)))
          state.exponent in
      let start_u = real.over (real.of_int start_utilization) weight in
      let end_u = real.over (real.of_int end_utilization) weight in
      real.minus
        (real.plus (real.minus (real.times min_price end_u) (real.times min_price start_u))
          (real.times coefficient (real.power end_u state.exponent)))
        (real.times coefficient (real.power start_u state.exponent))

  unfoldable pub price_function : PowerupStateResource D → ℤ → D
  price_function state utilization =
      let new_exponent = real.minus state.exponent (real.literal 10 1) in
      if real.at_most new_exponent (real.literal 0 1)
      then real.of_int state.max_price.amount
      else real.plus (real.of_int state.min_price.amount) (
          real.times (real.of_int (wrap64 (state.max_price.amount -ℤ state.min_price.amount))) (
            real.power (real.over (real.of_int utilization) (real.of_int state.weight))
              new_exponent))

  unfoldable pub calc_powerup_fee : PowerupStateResource D → ℤ → ℤ
  calc_powerup_fee state utilization_increase =
      if leb_ℤ utilization_increase (pos 0)
      then pos 0
      else let start = state.utilization in
        let end_utilization = wrap64 (start +ℤ utilization_increase) in
        let below = ltb_ℤ start state.adjusted_utilization in
        let flat = min_ℤ utilization_increase (wrap64 (state.adjusted_utilization -ℤ start)) in
        let fee =
          if below
          then real.plus (real.literal 0 1) (
              real.over
                (real.times (price_function state state.adjusted_utilization) (real.of_int flat))
                (real.of_int state.weight))
          else real.literal 0 1 in
        let start' = if below then state.adjusted_utilization else start in
        real.to_int (
          real.ceil (
            if ltb_ℤ start' end_utilization
            then real.plus fee (price_integral_delta state start' end_utilization)
            else fee))

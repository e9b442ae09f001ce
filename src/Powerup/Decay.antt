-- ===== src/Powerup/Decay.antt =====
-- What the comment on `update_utilization` promises.
use wax_system_contracts.Prelude.{ℕ, ◌-◌, ◌^◌, ◌<◌, ◌≡◌, false, arith, inl, inr, Bool-cases}
use wax_system_contracts.Prelude.Int.{
  ℤ, pos, ◌+ℤ◌, ◌-ℤ◌, ◌≤ℤ◌, leb_ℤ, wrap64, wrap64_exact, int_laws,
}
use wax_system_contracts.Resources.{max_ℤ}
use wax_system_contracts.Double.{Double}
use wax_system_contracts.Powerup.{PowerupStateResource}
use wax_system_contracts.Powerup.Curve.{update_utilization, clamp, elapsed}

-- A clamped part of the difference leads to a value in between.
clamped :
    (u a value : ℤ)
    → pos 0 ≤ℤ u
    → a ≤ℤ pos (2 ^ 63 - 1)
    → leb_ℤ a u ≡ false
    → (u ≤ℤ u +ℤ clamp value (a -ℤ u)) × (u +ℤ clamp value (a -ℤ u) ≤ℤ a)
unfolding ◌+ℤ◌ ◌-ℤ◌
clamped u a value nonneg small less = ground arith

ge_of_false : (a u : ℤ) → leb_ℤ a u ≡ false → u ≤ℤ a
ge_of_false a u e = ground arith

module _ {D : Type 0} (real : Double D) where
  -- Where time has passed, the new adjusted utilization is at least the utilization, and at most the
  -- larger one of the utilization and the old adjusted utilization; nothing else changes but the time.
  pub update_utilization_bounds :
      (now : ℕ) (res : PowerupStateResource D)
      → res.utilization_timestamp < now
      → pos 0 ≤ℤ res.utilization
      → res.adjusted_utilization ≤ℤ pos (2 ^ 63 - 1)
      → (adjusted : ℤ) × (update_utilization real now res
          ≡ record res { adjusted_utilization = adjusted; utilization_timestamp = now })
        × (res.utilization ≤ℤ adjusted)
        × (adjusted ≤ℤ max_ℤ res.utilization res.adjusted_utilization)
  unfolding update_utilization
  update_utilization_bounds now res later nonneg small =
      let u = res.utilization in
      let a = res.adjusted_utilization in
      elim (Bool-cases (leb_ℤ a u)) [
        | inl above ↦ (u, ground arith, omega arith, ground arith)
        | inr below ↦
            let rate = real.exp (
              real.over (real.negate (real.of_int (pos (elapsed now res.utilization_timestamp))))
                (real.of_int (pos res.decay_secs))) in
            let value = real.to_int (real.times (real.of_int (a -ℤ u)) rate) in
            let between = clamped u a value nonneg small below in
            let diff_exact : wrap64 (a -ℤ u) ≡ a -ℤ u =
              wrap64_exact (a -ℤ u) (omega (int_laws, ge_of_false a u below)) in
            let exact : wrap64 (u +ℤ clamp value (a -ℤ u)) ≡ u +ℤ clamp value (a -ℤ u) =
              wrap64_exact (u +ℤ clamp value (a -ℤ u)) (omega (arith, between)) in
            (
              u +ℤ clamp value (a -ℤ u),
              rw (diff_exact, exact) (ground arith),
              between.0,
              ground (arith, between.1),
            )
      ]

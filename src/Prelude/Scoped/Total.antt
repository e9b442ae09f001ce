-- ===== src/Prelude/Scoped/Total.antt =====
-- The sum of a number over all rows of a table.
use wax_system_contracts.Prelude.Tests.{◌==◌, Bool-cases}
use wax_system_contracts.Prelude.Int.{ℤ, pos, ◌+ℤ◌, int_laws, parts_of_eq}
use wax_system_contracts.Prelude.Scoped.{Scoped, find, set, erase}
use wax_system_contracts.Prelude.Scoped.Sum.{IsUnique, erase_absent}
use Prim.Native.Nat.{ℕ}
use mathlib.Core.Path.{◌≡◌}
use mathlib.Core.Bool.{true, ◌&&◌}
use mathlib.Core.Logic.{inl, inr}
use mathlib.Core.Option.{none, some}
use mathlib.Core.List.{[], ◌∷◌}
use native.Mathlib.Omega.{arith}

module _ {ℓ} {V : Type ℓ} (f : V → ℤ) where
  unfoldable pub total : Scoped V → ℤ
  total [] = pos 0
  total ((i, j, w) ∷ t) = f w +ℤ total t

  pub total-set_new :
      (s k : ℕ) (v : V) (t : Scoped V) → find s k t ≡ none → total (set s k v t) ≡ total t +ℤ f v
  unfolding find set total
  total-set_new s k v [] h = omega int_laws
  total-set_new s k v ((i, j, w) ∷ t) h = elim (Bool-cases (i == s && j == k)) [
    | inl e ↦ ground arith
    | inr e ↦ rw (e, total-set_new s k v t (rw e at h)) (omega int_laws)
  ]

  pub total-set_old :
      (s k : ℕ) (v old : V) (t : Scoped V)
      → find s k t ≡ some old
      → total (set s k v t) +ℤ f old ≡ total t +ℤ f v
  unfolding find set total
  total-set_old s k v old [] h = cc
  total-set_old s k v old ((i, j, w) ∷ t) h = elim (Bool-cases (i == s && j == k)) [
    | inl e ↦ rw (e, same_value e) (omega int_laws)
    | inr e ↦ rw e (omega (int_laws, parts_of_eq (total-set_old s k v old t (rw e at h))))
  ]
    where
      same_value : (i == s && j == k) ≡ true → w ≡ old
      same_value e = ground arith

  pub total-erase :
      (s k : ℕ) (old : V) (t : Scoped V)
      → IsUnique t
      → find s k t ≡ some old
      → total (erase s k t) +ℤ f old ≡ total t
  unfolding find erase total
  total-erase s k old [] u h = cc
  total-erase s k old ((i, j, w) ∷ t) u h =
      grind (int_laws, total-erase s k old t, erase_absent f s k t)

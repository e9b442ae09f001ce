-- ===== src/Prelude/Scoped.antt =====
-- A table of the chain's database with many scopes: rows by scope and primary key.
pub mod Sum
pub mod Total
use wax_system_contracts.Prelude.Tests.{◌==◌, if◌then◌else◌}
use Prim.Native.Nat.{ℕ}
use mathlib.Core.Path.{◌≡◌}
use mathlib.Core.Option.{Option, none, some}
use mathlib.Core.List.{List, [], ◌∷◌}
use mathlib.Core.Bool.{◌&&◌}
use native.Mathlib.Omega.{arith}

abbrev pub Scoped {ℓ} : Type ℓ → Type ℓ
Scoped V = List (ℕ × ℕ × V)

module _ {ℓ} {V : Type ℓ} where
  -- `find( key )` in the table of a scope; `none` is `end()`.
  unfoldable pub find : ℕ → ℕ → Scoped V → Option V
  find s k [] = none
  find s k ((i, j, v) ∷ t) = if i == s && j == k then some v else find s k t

  -- `emplace` where no row has the key, `modify` where one has.
  unfoldable pub set : ℕ → ℕ → V → Scoped V → Scoped V
  set s k v [] = (s, k, v) ∷ []
  set s k v ((i, j, w) ∷ t) = if i == s && j == k then (s, k, v) ∷ t else (i, j, w) ∷ set s k v t

  unfoldable pub erase : ℕ → ℕ → Scoped V → Scoped V
  erase s k [] = []
  erase s k ((i, j, w) ∷ t) = if i == s && j == k then erase s k t else (i, j, w) ∷ erase s k t

  pub find-set :
      (s k r j : ℕ) (v : V) (t : Scoped V)
      → find r j (set s k v t) ≡ (if s == r && k == j then some v else find r j t)
  unfolding find set
  find-set s k r j v [] = ground arith
  find-set s k r j v ((a, b, w) ∷ t) = ground (arith, find-set s k r j v t)

  pub find-erase :
      (s k r j : ℕ) (t : Scoped V)
      → find r j (erase s k t) ≡ (if s == r && k == j then none else find r j t)
  unfolding find erase
  find-erase s k r j [] = ground arith
  find-erase s k r j ((a, b, w) ∷ t) = ground (arith, find-erase s k r j t)

-- ===== src/Prelude/Table.antt =====
-- A table of the chain's database with one scope: rows by their 64-bit primary key.
use wax_system_contracts.Prelude.Tests.{◌==◌, ltb, if◌then◌else◌}
use Prim.Native.Nat.{ℕ}
use mathlib.Core.Path.{◌≡◌}
use mathlib.Core.Option.{Option, none, some}
use mathlib.Core.List.{List, [], ◌∷◌}
use native.Mathlib.Omega.{arith}

abbrev pub Table {ℓ} : Type ℓ → Type ℓ
Table V = List (ℕ × V)

module _ {ℓ} {V : Type ℓ} where
  -- `find( key )`; `none` is `end()`.
  unfoldable pub find : ℕ → Table V → Option V
  find k [] = none
  find k ((j, v) ∷ t) = if j == k then some v else find k t

  -- `emplace` where no row has the key, `modify` where one has. Rows stand in the order of their
  -- keys, in which the chain iterates.
  unfoldable pub set : ℕ → V → Table V → Table V
  set k v [] = (k, v) ∷ []
  set k v ((j, w) ∷ t) =
      if j == k then (k, v) ∷ t else if ltb k j then (k, v) ∷ (j, w) ∷ t else (j, w) ∷ set k v t

  unfoldable pub erase : ℕ → Table V → Table V
  erase k [] = []
  erase k ((j, w) ∷ t) = if j == k then erase k t else (j, w) ∷ erase k t

  pub find-set :
      (k j : ℕ) (v : V) (t : Table V) → find j (set k v t) ≡ (if k == j then some v else find j t)
  unfolding find set
  find-set k j v [] = ground arith
  find-set k j v ((i, w) ∷ t) = ground (arith, find-set k j v t)

  pub find-erase :
      (k j : ℕ) (t : Table V) → find j (erase k t) ≡ (if k == j then none else find j t)
  unfolding find erase
  find-erase k j [] = ground arith
  find-erase k j ((i, w) ∷ t) = ground (arith, find-erase k j t)

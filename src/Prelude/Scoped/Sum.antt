-- ===== src/Prelude/Scoped/Sum.antt =====
-- Rows with distinct keys, and the sum of a number over the rows of one key in all scopes.
use wax_system_contracts.Prelude.Tests.{◌==◌, if◌then◌else◌, Bool-cases}
use wax_system_contracts.Prelude.Int.{ℤ, pos, ◌+ℤ◌, ◌≤ℤ◌, int_laws, parts_of_eq}
use wax_system_contracts.Prelude.Scoped.{Scoped, find, set, erase, find-set, find-erase}
use Prim.Native.Nat.{ℕ}
use mathlib.Core.Path.{◌≡◌, refl}
use mathlib.Core.Bool.{true, ◌&&◌}
use mathlib.Core.Logic.{inl, inr}
use mathlib.Core.Option.{none, some}
use mathlib.Core.List.{[], ◌∷◌}
use native.Mathlib.Omega.{arith}

module _ {ℓ} {V : Type ℓ} where
  -- No two rows share a scope and a key.
  abbrev pub IsUnique : Scoped V → Type ℓ
  IsUnique [] = Unit
  IsUnique ((i, j, w) ∷ t) = (find i j t ≡ none) × IsUnique t

  pub set-IsUnique : (s k : ℕ) (v : V) (t : Scoped V) → IsUnique t → IsUnique (set s k v t)
  unfolding find set
  set-IsUnique s k v [] u = (refl, tt)
  set-IsUnique s k v ((i, j, w) ∷ t) u = ground (arith, set-IsUnique s k v t, find-set s k i j v t)

  pub erase-IsUnique : (s k : ℕ) (t : Scoped V) → IsUnique t → IsUnique (erase s k t)
  unfolding find erase
  erase-IsUnique s k [] u = tt
  erase-IsUnique s k ((i, j, w) ∷ t) u = ground (arith, erase-IsUnique s k t, find-erase s k i j t)

module _ {ℓ} {V : Type ℓ} (f : V → ℤ) where
  unfoldable pub sum_key : ℕ → Scoped V → ℤ
  sum_key c [] = pos 0
  sum_key c ((i, j, w) ∷ t) = (if j == c then f w else pos 0) +ℤ sum_key c t

  pub sum_key-set_new :
      (c s k : ℕ) (v : V) (t : Scoped V)
      → find s k t ≡ none
      → sum_key c (set s k v t) ≡ sum_key c t +ℤ (if k == c then f v else pos 0)
  unfolding find set sum_key
  sum_key-set_new c s k v [] h = omega int_laws
  sum_key-set_new c s k v ((i, j, w) ∷ t) h = elim (Bool-cases (i == s && j == k)) [
    | inl e ↦ ground arith
    | inr e ↦ rw (e, sum_key-set_new c s k v t (rw e at h)) (omega int_laws)
  ]

  pub sum_key-set_old :
      (c s k : ℕ) (v old : V) (t : Scoped V)
      → find s k t ≡ some old
      → sum_key c (set s k v t) +ℤ (if k == c then f old else pos 0)
        ≡ sum_key c t +ℤ (if k == c then f v else pos 0)
  unfolding find set sum_key
  sum_key-set_old c s k v old [] h = cc
  sum_key-set_old c s k v old ((i, j, w) ∷ t) h = elim (Bool-cases (i == s && j == k)) [
    | inl e ↦ rw (e, same_key e, same_value e) (omega int_laws)
    | inr e ↦ rw e (omega (int_laws, parts_of_eq (sum_key-set_old c s k v old t (rw e at h))))
  ]
    where
      same_key : (i == s && j == k) ≡ true → j ≡ k
      same_key e = ground arith

      same_value : (i == s && j == k) ≡ true → w ≡ old
      same_value e = ground arith

  pub erase_absent : (s k : ℕ) (t : Scoped V) → find s k t ≡ none → erase s k t ≡ t
  unfolding find erase
  erase_absent s k [] h = refl
  erase_absent s k ((i, j, w) ∷ t) h = ground (arith, erase_absent s k t)

  pub sum_key-erase :
      (c s k : ℕ) (old : V) (t : Scoped V)
      → IsUnique t
      → find s k t ≡ some old
      → sum_key c (erase s k t) +ℤ (if k == c then f old else pos 0) ≡ sum_key c t
  unfolding find erase sum_key
  sum_key-erase c s k old [] u h = cc
  sum_key-erase c s k old ((i, j, w) ∷ t) u h =
      grind (int_laws, sum_key-erase c s k old t, erase_absent s k t)

  -- No row is below zero.
  abbrev pub IsNonneg : Scoped V → Type 0
  IsNonneg [] = Unit
  IsNonneg ((i, j, w) ∷ t) = (pos 0 ≤ℤ f w) × IsNonneg t

  pub find_nonneg :
      (s k : ℕ) (v : V) (t : Scoped V) → IsNonneg t → find s k t ≡ some v → pos 0 ≤ℤ f v
  unfolding find
  find_nonneg s k v [] n h = cc
  find_nonneg s k v ((i, j, w) ∷ t) n h = ground (arith, find_nonneg s k v t n.1)

  pub set-IsNonneg :
      (s k : ℕ) (v : V) (t : Scoped V) → IsNonneg t → pos 0 ≤ℤ f v → IsNonneg (set s k v t)
  unfolding set
  set-IsNonneg s k v [] n h = (h, tt)
  set-IsNonneg s k v ((i, j, w) ∷ t) n h = ground (arith, set-IsNonneg s k v t n.1 h)

  pub erase-IsNonneg : (s k : ℕ) (t : Scoped V) → IsNonneg t → IsNonneg (erase s k t)
  unfolding erase
  erase-IsNonneg s k [] n = tt
  erase-IsNonneg s k ((i, j, w) ∷ t) n = ground (arith, erase-IsNonneg s k t n.1)

  sum_key_nonneg : (c : ℕ) (t : Scoped V) → IsNonneg t → pos 0 ≤ℤ sum_key c t
  unfolding sum_key
  sum_key_nonneg c [] n = omega arith
  sum_key_nonneg c ((i, j, w) ∷ t) n = grind (int_laws, sum_key_nonneg c t n.1)

  -- A row is at most the sum of its key.
  pub find-le-sum_key :
      (s k : ℕ) (v : V) (t : Scoped V) → IsNonneg t → find s k t ≡ some v → f v ≤ℤ sum_key k t
  unfolding find sum_key
  find-le-sum_key s k v [] n h = cc
  find-le-sum_key s k v ((i, j, w) ∷ t) n h =
      grind (int_laws, sum_key_nonneg k t n.1, find-le-sum_key s k v t n.1)

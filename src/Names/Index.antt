-- ===== src/Names/Index.antt =====
-- The row that the index of the bids finds.
use wax_system_contracts.Prelude.{ℕ, ◌≡◌, some, [], ◌∷◌, arith, inl, inr, Option-cases}
use wax_system_contracts.Prelude.Scoped.{Scoped, find}
use wax_system_contracts.Prelude.Scoped.Sum.{IsUnique}
use wax_system_contracts.Names.{NameBid, lower_bound}

-- The row that the index finds stands in the table.
pub find-lower_bound :
    (scope key : ℕ) (b : NameBid) (t : Scoped NameBid)
    → IsUnique t
    → lower_bound scope t ≡ some (key, b)
    → find scope key t ≡ some b
unfolding lower_bound find
find-lower_bound scope key b [] u h = cc
find-lower_bound scope key b ((i, j, w) ∷ t) u h = elim (Option-cases (lower_bound scope t)) [
  | inl nothing ↦ ground arith
  | inr ((k, best), e) ↦ ground (arith, find-lower_bound scope key b t u.1)
]

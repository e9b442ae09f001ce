-- ===== src/Msig/Invalidate.antt =====
-- What `invalidate` does to the approvals that an account has given.
use wax_system_contracts.Prelude.{
  ℕ, ◌≡◌, ◌≤◌, refl, some, ok, ◌==◌, arith, if◌then◌else◌, List, [], ◌∷◌, All,
}
use wax_system_contracts.Prelude.Table
use wax_system_contracts.Prelude.Table.{Table}
use wax_system_contracts.Prelude.Scoped
use wax_system_contracts.Asset.{Chain}
use wax_system_contracts.Msig.{
  PermissionLevel, Msig, Approval, ApprovalsInfo, valid_approvals, get_approvals_and_adjust_table,
  adjust_new,
}
use wax_system_contracts.Msig.Actions.{invalidate}
use wax_system_contracts.Msig.Exec.{Counted}

-- The levels of all other accounts, in order.
unfoldable pub without : ℕ → List PermissionLevel → List PermissionLevel
without account [] = []
without account (l ∷ ls) = if l.actor == account then without account ls else l ∷ without account ls

valid_approvals-set :
    (account now : ℕ) (inv : Table ℕ) (given : List Approval)
    → All (λ a. a.time ≤ now) given
    → valid_approvals (Table.set account now inv) given
      ≡ without account (valid_approvals inv given)
unfolding valid_approvals without
valid_approvals-set account now inv [] h = refl
valid_approvals-set account now inv (a ∷ as') h = ground (
  arith,
  Table.find-set account a.level.actor now inv,
  valid_approvals-set account now inv as' h.1,
)

-- An account that invalidates withdraws every approval that it gave up to now, on every proposal
-- of the current format, and no approval of anybody else.
pub invalidate_withdraws :
    (c : Chain) (account proposer name : ℕ) (s t : Msig) (row : ApprovalsInfo)
    (levels : List PermissionLevel)
    → invalidate c account s ≡ ok t
    → Scoped.find proposer name s.approvals ≡ some row
    → All (λ a. a.time ≤ c.now) row.provided_approvals
    → Counted proposer name s levels
    → Counted proposer name t (without account levels)
unfolding invalidate get_approvals_and_adjust_table adjust_new
invalidate_withdraws c account proposer name s t row levels h found past counted =
    ground (arith, valid_approvals-set account c.now s.invalidations row.provided_approvals past)

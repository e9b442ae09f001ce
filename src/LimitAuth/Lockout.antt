-- ===== src/LimitAuth/Lockout.antt =====
-- Nobody can lock out the owner permission of an account.
use wax_system_contracts.Prelude.{
  ℕ, ◌≡◌, ◌<◌, true, some, ok, List, [], arith, inl, inr, Option-cases,
}
use wax_system_contracts.Prelude.Table
use wax_system_contracts.Asset.{Chain}
use wax_system_contracts.LimitAuth.{check_auth_change, check_row, Call, run}
use wax_system_contracts.LimitAuth.Invariant.{run-IsLawful, no_rows}

module _ (owner : ℕ) where
  -- After any history of calls from the empty table, the owner permission of any account, when it
  -- signs, can change the account's authorities.
  pub owner_never_locked_out :
      (ls : List Call) (c : Chain) (account : ℕ)
      → 0 < owner
      → c.has_permission account owner ≡ true
      → check_auth_change c account (some owner) (run owner ls []) ≡ ok tt
  unfolding check_auth_change check_row
  owner_never_locked_out ls c account named signs =
      elim (Option-cases (Table.find account (run owner ls []))) [
        | inl missing ↦ ground arith
        | inr (row, found) ↦
            ground (arith, run-IsLawful owner ls [] (no_rows owner) account row found)
      ]

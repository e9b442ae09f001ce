-- ===== src/LimitAuth/Rules.antt =====
-- The rules that include/eosio.system/native.hpp documents for `updateauth`, `deleteauth`, `linkauth`
-- and `unlinkauth`, all of which call `check_auth_change`.
use wax_system_contracts.Prelude.{
  ℕ, ◌≡◌, ◌↔◌, Bool, true, not, ◌&&◌, ◌||◌, Option, none, some, ok, is_empty, contains, List, [],
  arith, ◌==◌, inl, inr, Option-cases,
}
use wax_system_contracts.Prelude.Table
use wax_system_contracts.Asset.{Chain}
use wax_system_contracts.LimitAuth.{
  LimitAuthChange, check_auth_change, check_row, name_or_empty, Call, run,
}
use wax_system_contracts.LimitAuth.Invariant.{run-IsLawful, no_rows, is_lawful}

-- Rules 2 to 4, on the row of an account that has opted into the limits.
abbrev pub row_rules : ℕ → Option LimitAuthChange → Bool
row_rules by none = true
row_rules by (some row) =
    not (by == 0)
    && (is_empty row.allow_perms || contains by row.allow_perms)
    && (is_empty row.disallow_perms || not (contains by row.disallow_perms))

-- Rule 1: a permission that is named has to sign.
abbrev pub rules : Chain → ℕ → ℕ → Option LimitAuthChange → Bool
rules c account by row = (by == 0 || c.has_permission account by) && row_rules by row

row_meets :
    (owner by : ℕ) (row : LimitAuthChange)
    → is_lawful owner row ≡ true
    → (check_row by row ≡ ok tt) ↔ (row_rules by (some row) ≡ true)
unfolding check_row
row_meets owner by row lawful = (λ h. ground arith, λ h. ground arith)

-- In the table that any history of calls makes, the check passes exactly when the four documented
-- rules are met.
pub check_auth_change_documented :
    (owner : ℕ) (ls : List Call) (c : Chain) (account : ℕ) (authorized_by : Option ℕ)
    → (check_auth_change c account authorized_by (run owner ls []) ≡ ok tt) ↔ (
        rules c account (name_or_empty authorized_by) (Table.find account (run owner ls [])) ≡ true)
unfolding check_auth_change
check_auth_change_documented owner ls c account authorized_by =
    elim (Option-cases (Table.find account (run owner ls []))) [
      | inl missing ↦ (λ h. ground arith, λ h. ground arith)
      | inr (row, found) ↦
          let meets =
            row_meets owner (name_or_empty authorized_by) row
              (run-IsLawful owner ls [] (no_rows owner) account row found) in
          (λ h. ground (arith, meets.0), λ h. ground (arith, meets.1))
    ]

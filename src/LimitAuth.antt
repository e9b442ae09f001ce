-- ===== src/LimitAuth.antt =====
-- contracts/eosio.system, src/limit_auth_changes.cpp: an account says which of its permissions may
-- change its authorities. The name "owner", which the toolkit encodes, is the parameter `owner`.
pub mod Decision
pub mod Invariant
pub mod Lockout
pub mod Rules
mod Tests
use wax_system_contracts.Prelude.{
  ℕ, Bool, true, false, ◌||◌, not, Option, none, some, Result, ok, ◌>>=◌, ◌>>◌, check, after,
  is_some, is_empty, contains, List, [], ◌∷◌, ltb, if◌then◌else◌,
}
use wax_system_contracts.Prelude.Table.{Table, find, set, erase}
use wax_system_contracts.Asset.{Chain, require_auth}

pub record LimitAuthChange : Type 0 where
  pub account : ℕ
  pub allow_perms : List ℕ
  pub disallow_perms : List ℕ

abbrev pub Limits : Type 0
Limits = Table LimitAuthChange

unfoldable pub limitauthchg : ℕ → Chain → ℕ → List ℕ → List ℕ → Limits → Result Limits
limitauthchg owner c account allow_perms disallow_perms t = do
  require_auth c account
  check (is_empty allow_perms || is_empty disallow_perms)
      "either allow_perms or disallow_perms must be empty"
  check (is_empty allow_perms || contains owner allow_perms) "allow_perms does not contain owner"
  check (is_empty disallow_perms || not (contains owner disallow_perms))
      "disallow_perms contains owner"
  ok (
      if not (is_empty allow_perms) || not (is_empty disallow_perms)
      then set account
          (record { account = account; allow_perms = allow_perms; disallow_perms = disallow_perms })
          t
      else erase account t)

-- The name in a `binary_extension`, which is empty where it is missing.
abbrev pub name_or_empty : Option ℕ → ℕ
name_or_empty none = 0
name_or_empty (some n) = n

unfoldable pub check_row : ℕ → LimitAuthChange → Result (Unit {0})
check_row by row = do
  check (ltb 0 by) "authorized_by is required for this account"
  (if not (is_empty row.allow_perms)
      then check (contains by row.allow_perms) "authorized_by does not appear in allow_perms"
      else check (not (contains by row.disallow_perms)) "authorized_by appears in disallow_perms")

unfoldable pub check_auth_change : Chain → ℕ → Option ℕ → Limits → Result (Unit {0})
unfolding check_row
check_auth_change c account authorized_by t = do
  let by = name_or_empty authorized_by
  (if ltb 0 by then check (c.has_permission account by) "missing required authority" else ok tt)
  elim (find account t) [ none ↦ ok tt | some row ↦ check_row by row ]

-- A call of `limitauthchg`, and a history of calls; one that fails leaves no trace.
pub record Call : Type 0 where
  pub chain : Chain
  pub account : ℕ
  pub allow_perms : List ℕ
  pub disallow_perms : List ℕ

unfoldable pub run : ℕ → List Call → Limits → Limits
run owner [] t = t
run owner (l ∷ ls) t =
    run owner ls (after t (limitauthchg owner l.chain l.account l.allow_perms l.disallow_perms t))

-- ===== src/LimitAuth/Decision.antt =====
-- What a call of `limitauthchg` permits afterwards.
use wax_system_contracts.Prelude.{
  ℕ, ◌≡◌, ◌<◌, ◌↔◌, Bool, true, false, ◌||◌, ◌&&◌, not, some, ok, Option, is_empty, contains, List,
  arith, ◌==◌,
}
use wax_system_contracts.Prelude.Table
use wax_system_contracts.Asset.{Chain}
use wax_system_contracts.LimitAuth.{
  Limits, LimitAuthChange, limitauthchg, check_auth_change, check_row,
}

-- A list of allowed permissions has to name `by`, and a list of disallowed ones must not.
abbrev pub permits : List ℕ → List ℕ → ℕ → Bool
permits allow_perms disallow_perms by =
    (is_empty allow_perms || contains by allow_perms) && not (contains by disallow_perms)

module _ (owner : ℕ) (c c' : Chain) (account : ℕ) (allow_perms disallow_perms : List ℕ)
    (s t : Limits) where
  -- After a successful call, a permission that signs can change the account's authorities exactly
  -- when the lists of the call permit it.
  pub limitauthchg_decides :
      (by : ℕ)
      → limitauthchg owner c account allow_perms disallow_perms s ≡ ok t
      → 0 < by
      → c'.has_permission account by ≡ true
      → (check_auth_change c' account (some by) t ≡ ok tt)
        ↔ (permits allow_perms disallow_perms by ≡ true)
  unfolding limitauthchg check_auth_change check_row
  limitauthchg_decides by h named signs =
      let row : LimitAuthChange = record {
        account = account;
        allow_perms = allow_perms;
        disallow_perms = disallow_perms;
      } in
      (
        λ passes.
            ground
              (arith, Table.find-set account account row s, Table.find-erase account account s),
        λ permitted.
            ground
              (arith, Table.find-set account account row s, Table.find-erase account account s),
      )

  -- A call leaves the decisions on all other accounts as they were.
  pub limitauthchg_local :
      (other : ℕ) (by : Option ℕ)
      → limitauthchg owner c account allow_perms disallow_perms s ≡ ok t
      → (account == other) ≡ false
      → check_auth_change c' other by t ≡ check_auth_change c' other by s
  unfolding limitauthchg check_auth_change
  limitauthchg_local other by h differ =
      let row : LimitAuthChange = record {
        account = account;
        allow_perms = allow_perms;
        disallow_perms = disallow_perms;
      } in
      ground (arith, Table.find-set account other row s, Table.find-erase account other s)

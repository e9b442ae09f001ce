-- ===== src/LimitAuth/Invariant.antt =====
-- What every row of the limits keeps to, after any history of calls.
use wax_system_contracts.Prelude.{
  ℕ, ◌≡◌, Bool, true, not, ◌&&◌, ◌||◌, some, ok, after, is_empty, contains, List, [], ◌∷◌, arith,
  inl, inr, Result-cases,
}
use wax_system_contracts.Prelude.Table
use wax_system_contracts.Asset.{Chain}
use wax_system_contracts.LimitAuth.{Limits, LimitAuthChange, limitauthchg, Call, run}

-- The owner permission passes the lists of a row, one of which is empty.
abbrev pub is_lawful : ℕ → LimitAuthChange → Bool
is_lawful owner row =
    (is_empty row.allow_perms && not (contains owner row.disallow_perms))
    || (is_empty row.disallow_perms && contains owner row.allow_perms)

abbrev pub IsLawful : ℕ → Limits → Type 0
IsLawful owner t =
    (k : ℕ) (row : LimitAuthChange) → Table.find k t ≡ some row → is_lawful owner row ≡ true

pub no_rows : (owner : ℕ) → IsLawful owner []
unfolding Table.find
no_rows owner k row found = cc

module _ (owner : ℕ) where
  limitauthchg-IsLawful :
      (c : Chain) (account : ℕ) (allow_perms disallow_perms : List ℕ) (s t : Limits)
      → IsLawful owner s
      → limitauthchg owner c account allow_perms disallow_perms s ≡ ok t
      → IsLawful owner t
  unfolding limitauthchg
  limitauthchg-IsLawful c account allow_perms disallow_perms s t o h k row found =
      let new : LimitAuthChange = record {
        account = account;
        allow_perms = allow_perms;
        disallow_perms = disallow_perms;
      } in
      ground (arith, Table.find-set account k new s, Table.find-erase account k s, o k row)

  pub run-IsLawful :
      (ls : List Call) (t : Limits) → IsLawful owner t → IsLawful owner (run owner ls t)
  unfolding run
  run-IsLawful [] t o = o
  run-IsLawful (l ∷ ls) t o =
      run-IsLawful ls
        (after t (limitauthchg owner l.chain l.account l.allow_perms l.disallow_perms t))
        (elim (Result-cases
          (limitauthchg owner l.chain l.account l.allow_perms l.disallow_perms t)) [
            | inl (t', e) ↦
                rw e
                  (limitauthchg-IsLawful l.chain l.account l.allow_perms l.disallow_perms t t' o e)
            | inr (_, e) ↦ rw e o
          ])

-- ===== src/LimitAuth/Tests.antt =====
-- Runs of the limits on authority changes and their theorems at concrete inputs. The owner
-- permission is 1, the active one 2.
use wax_system_contracts.Prelude.{◌≡◌, ◌↔◌, refl, true, some, ok, err, arith, List, [], ◌∷◌}
use wax_system_contracts.Prelude.Table
use wax_system_contracts.Asset.{Chain}
use wax_system_contracts.LimitAuth.{Call, Limits, limitauthchg, check_auth_change, check_row, run}
use wax_system_contracts.LimitAuth.Decision.{permits, limitauthchg_decides, limitauthchg_local}
use wax_system_contracts.LimitAuth.Lockout.{owner_never_locked_out}
use wax_system_contracts.LimitAuth.Rules.{rules, check_auth_change_documented}

abbrev anyone : Chain
anyone = record {
  has_auth = λ n. true;
  is_account = λ n. true;
  has_permission = λ a p. true;
  now = 0;
  now_sec = 0;
}

-- Account 5 allows owner only; a call that would lock the owner out fails.
abbrev calls : List Call
calls =
    record { chain = anyone; account = 5; allow_perms = 1 ∷ []; disallow_perms = [] }
    ∷ record { chain = anyone; account = 5; allow_perms = 2 ∷ []; disallow_perms = [] }
    ∷ []

abbrev limited : Limits
limited = (5, record { account = 5; allow_perms = 1 ∷ []; disallow_perms = [] }) ∷ []

limits : limitauthchg 1 anyone 5 (1 ∷ []) [] [] ≡ ok limited
unfolding limitauthchg Table.set
limits = refl

runs : run 1 calls [] ≡ limited
unfolding run limitauthchg Table.set
runs = refl

refuses_active :
    check_auth_change anyone 5 (some 2) limited ≡ err "authorized_by does not appear in allow_perms"
unfolding check_auth_change check_row Table.find
refuses_active = refl

limitauthchg_decides_example :
    (check_auth_change anyone 5 (some 2) limited ≡ ok tt) ↔ (permits (1 ∷ []) [] 2 ≡ true)
limitauthchg_decides_example =
    limitauthchg_decides 1 anyone anyone 5 (1 ∷ []) [] [] limited 2 limits (omega arith) refl

limitauthchg_local_example :
    check_auth_change anyone 6 (some 2) limited ≡ check_auth_change anyone 6 (some 2) []
limitauthchg_local_example =
    limitauthchg_local 1 anyone anyone 5 (1 ∷ []) [] [] limited 6 (some 2) limits refl

owner_never_locked_out_example : check_auth_change anyone 5 (some 1) (run 1 calls []) ≡ ok tt
owner_never_locked_out_example = owner_never_locked_out 1 calls anyone 5 (omega arith) refl

check_auth_change_documented_example :
    (check_auth_change anyone 5 (some 2) (run 1 calls []) ≡ ok tt)
    ↔ (rules anyone 5 2 (Table.find 5 (run 1 calls [])) ≡ true)
check_auth_change_documented_example = check_auth_change_documented 1 calls anyone 5 (some 2)

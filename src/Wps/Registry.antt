-- ===== src/Wps/Registry.antt =====
-- src/wps.cpp: the registration of proposers, reviewers and committees, and the parameters.
use Prim.Native.String.{len}
use wax_system_contracts.Prelude.{
  ℕ, Bool, some, Result, ok, ◌>>=◌, ◌>>◌, check, or_fail, is_none, is_some, ltb, ◌==◌, String,
}
use wax_system_contracts.Prelude.Table.{find, set, erase}
use wax_system_contracts.Asset.{Chain, require_auth}
use wax_system_contracts.Wps.{VoteLib, Profile, WpsEnv, Wps}

abbrev pub no_proposer : String
no_proposer = "Account not found in proposer table"

abbrev pub no_committee : String
no_committee = "Account not found in committee table"

abbrev pub no_reviewer : String
no_reviewer = "Account not found in reviewers table"

-- The checks on the texts, which `regproposer` and `editproposer` share word for word.
unfoldable pub check_profile : Profile → Result (Unit {0})
check_profile p = do
  check (ltb 0 (len p.first_name)) "first name should be more than 0 characters long"
  check (ltb 0 (len p.last_name)) "last name should be more than 0 characters long"
  check (ltb 0 (len p.img_url)) "not a valid image URL"
  check (ltb 0 (len p.bio)) "bio should be more than 0 characters long"
  check (ltb 0 (len p.country)) "country name should be more than 0 characters long"
  check (ltb (len p.first_name) 128) "first name should be shorter than 128 characters."
  check (ltb (len p.last_name) 128) "last name should be shorter than 128 characters."
  check (ltb (len p.img_url) 128) "image URL should be shorter than 128 characters."
  check (ltb (len p.bio) 256) "description should be shorter than 256 characters."
  check (ltb (len p.country) 64) "country name should be shorter than 64 characters."
  check (ltb (len p.telegram) 64) "telegram username should be shorter than 64 characters."
  check (ltb (len p.website) 128) "website URL should be shorter than 128 characters."
  check (ltb (len p.linkedin) 128) "linked URL should be shorter than 128 characters."

-- The checks on a reviewer's names, which `regreviewer` and `editreviewer` share.
unfoldable pub check_names : String → String → Result (Unit {0})
check_names first_name last_name = do
  check (ltb 0 (len first_name)) "first name should be more than 0 characters long"
  check (ltb 0 (len last_name)) "last name should be more than 0 characters long"
  check (ltb (len first_name) 128) "first name should be shorter than 128 characters."
  check (ltb (len last_name) 128) "last name should be shorter than 128 characters."

unfoldable pub check_category : String → Result (Unit {0})
check_category category = do
  check (ltb 0 (len category)) "category should be more than 0 characters long"
  check (ltb (len category) 64) "category should be less than 64 characters long"

module _ {D : Type 0} where
  unfoldable pub regproposer : Chain → ℕ → Profile → Wps D → Result (Wps D)
  regproposer c account profile s = do
    require_auth c account
    check_profile profile
    check (is_none (find account s.proposers))
        "This account has already been registered as a proposer"
    ok (record s {
      proposers =
          set account (record { account = account; profile = profile; last_claim_time = 0 })
            s.proposers;
    })

  unfoldable pub editproposer : Chain → ℕ → Profile → Wps D → Result (Wps D)
  editproposer c account profile s = do
    require_auth c account
    check_profile profile
    row ← or_fail (find account s.proposers) no_proposer
    ok (record s {
      proposers = set account (record row { account = account; profile = profile }) s.proposers;
    })

  unfoldable pub rmvproposer : Chain → ℕ → Wps D → Result (Wps D)
  rmvproposer c account s = do
    require_auth c account
    check (is_some (find account s.proposers)) no_proposer
    ok (record s { proposers = erase account s.proposers })

  unfoldable pub regreviewer : Chain → ℕ → ℕ → String → String → Wps D → Result (Wps D)
  regreviewer c committee reviewer first_name last_name s = do
    require_auth c committee
    check (c.is_account reviewer) "The reviewer account does not exist"
    check_names first_name last_name
    check (is_some (find committee s.committees)) no_committee
    check (is_none (find reviewer s.reviewers))
        "This account has already been registered as a reviewer"
    ok (record s {
      reviewers =
          set reviewer
            (record {
              account = reviewer;
              first_name = first_name;
              last_name = last_name;
              committee = committee;
            })
            s.reviewers;
    })

  unfoldable pub editreviewer : Chain → ℕ → ℕ → String → String → Wps D → Result (Wps D)
  editreviewer c committee reviewer first_name last_name s = do
    require_auth c committee
    check (c.is_account reviewer) "The reviewer account does not exist"
    check_names first_name last_name
    check (is_some (find committee s.committees)) no_committee
    row ← or_fail (find reviewer s.reviewers) no_reviewer
    check (row.committee == committee) "The given reviewer is not part of this committee"
    ok (record s {
      reviewers =
          set reviewer
            (record {
              account = reviewer;
              first_name = first_name;
              last_name = last_name;
              committee = committee;
            })
            s.reviewers;
    })

  unfoldable pub rmvreviewer : Chain → ℕ → ℕ → Wps D → Result (Wps D)
  rmvreviewer c committee reviewer s = do
    require_auth c committee
    check (c.is_account reviewer) "The account does not exist"
    check (is_some (find committee s.committees)) no_committee
    row ← or_fail (find reviewer s.reviewers) no_reviewer
    check (row.committee == committee) "The given reviewer is not part of this committee"
    ok (record s { reviewers = erase reviewer s.reviewers })

  unfoldable pub setwpsenv : ℕ → Chain → WpsEnv → Wps D → Result (Wps D)
  setwpsenv self c env s = do
    require_auth c self
    check (ltb 0 env.total_voting_percent) "total_voting_percent should be more 0"
    check (ltb 0 env.duration_of_voting) "duration_of_voting should be more than 0"
    check (ltb 0 env.max_duration_of_funding) "max_duration_of_funding should be more than 0"
    check (ltb 0 env.total_iteration_of_funding) "total_iteration_of_funding should be more than 0"
    ok (record s { env = some env })

  unfoldable pub setwpsstate : VoteLib D → ℕ → Chain → D → Wps D → Result (Wps D)
  setwpsstate lib self c total_stake s = do
    require_auth c self
    check (lib.less lib.zero_votes total_stake) "total_stake should be more 0"
    ok (record s { total_stake = total_stake })

  unfoldable pub regcommittee : ℕ → Chain → ℕ → String → Bool → Wps D → Result (Wps D)
  regcommittee self c committeeman category is_oversight s = do
    require_auth c self
    check (c.is_account committeeman) "committeeman account doesn't exist"
    check_category category
    check (is_none (find committeeman s.committees))
        "This account has already been registered as a committee"
    ok (record s {
      committees =
          set committeeman
            (record {
              committeeman = committeeman;
              category = category;
              is_oversight = is_oversight;
            })
            s.committees;
    })

  unfoldable pub edcommittee : ℕ → Chain → ℕ → String → Bool → Wps D → Result (Wps D)
  edcommittee self c committeeman category is_oversight s = do
    require_auth c self
    check (c.is_account committeeman) "committee account doesn't exist"
    check_category category
    check (is_some (find committeeman s.committees)) no_committee
    ok (record s {
      committees =
          set committeeman
            (record {
              committeeman = committeeman;
              category = category;
              is_oversight = is_oversight;
            })
            s.committees;
    })

  unfoldable pub rmvcommittee : ℕ → Chain → ℕ → Wps D → Result (Wps D)
  rmvcommittee self c committeeman s = do
    require_auth c self
    check (c.is_account committeeman) "committeeman account doesn't exist"
    check (is_some (find committeeman s.committees)) no_committee
    ok (record s { committees = erase committeeman s.committees })

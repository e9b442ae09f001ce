-- ===== src/Wps/Proposals.antt =====
-- src/wps.cpp: the registration of proposals and the payment of approved ones.
use Prim.Native.String.{len}
use wax_system_contracts.Prelude.{
  ℕ, ◌+◌, ◌*◌, ◌/◌, Result, ok, ◌>>=◌, ◌>>◌, check, or_fail, is_none, is_some, ltb, leb, String,
  map, length, if◌then◌else◌,
}
use wax_system_contracts.Prelude.Int.{pos, ltb_ℤ}
use wax_system_contracts.Prelude.Table.{find, set}
use wax_system_contracts.Asset.{AssetLib, Chain, require_auth}
use wax_system_contracts.Wps.{
  VoteLib, Draft, Proposal, Payment, WpsEnv, Wps, pending, approved, completed, has_status, wrap32,
  seconds_per_day,
}
use wax_system_contracts.Wps.Registry.{no_proposer, no_committee}

abbrev pub no_proposal : String
no_proposal = "Proposal not found in proposal table"

-- The lower bounds on the texts, and the upper bounds, which `regproposal` and `editproposal` share.
unfoldable pub check_present : Draft → Result (Unit {0})
check_present d = do
  check (ltb 0 (len d.title)) "title should be more than 0 characters long"
  check (ltb 0 (len d.summary)) "summary should be more than 0 characters long"
  check (ltb 0 (len d.project_img_url)) "URL should be more than 0 characters long"
  check (ltb 0 (len d.description)) "description should be more than 0 characters long"
  check (ltb 0 (len d.roadmap)) "roadmap should be more than 0 characters long"

unfoldable pub check_sizes : AssetLib → WpsEnv → String → Draft → Result (Unit {0})
check_sizes lib env too_long d = do
  check (ltb d.subcategory 10) "invalid sub-category"
  check (ltb (len d.title) 256) "title should be shorter than 256 characters."
  check (ltb (len d.summary) 400) "subtitle should be shorter than 256 characters."
  check (ltb (len d.project_img_url) 128) "URL should be shorter than 128 characters."
  check (ltb (len d.description) 5000) "description should be shorter than 1024 characters."
  check (ltb (len d.roadmap) 2000) "financial_roadmap should be shorter than 256 characters."
  check (leb d.duration env.max_duration_of_funding) too_long
  check (ltb (length d.members) 50) "members should be shorter than 50 characters."
  check (lib.is_valid d.funding_goal) "invalid quantity"
  check (ltb_ℤ (pos 0) d.funding_goal.amount) "must request positive amount"
  check (ltb d.total_iterations 100) "total iterations must be less than 100"

abbrev no_singleton : String
no_singleton = "singleton does not exist"

module _ {D : Type 0} (lib : AssetLib) (votes : VoteLib D) where
  unfoldable pub regproposal : Chain → ℕ → ℕ → Draft → Wps D → Result (Wps D)
  regproposal c proposer committee d s = do
    require_auth c proposer
    check (c.is_account committee) "committee account doesn't exist"
    check_present d
    check (leb 30 d.duration) "duration should be at least 30 days"
    check (ltb 0 (length d.members)) "member should be more than 0"
    check (leb 1 d.total_iterations) "total number of iterations must be at least 1"
    env ← or_fail s.env no_singleton
    check_sizes lib env "this proposal is over the maximum duration" d
    check (is_some (find proposer s.proposers)) "This account is not a registered proposer"
    check (is_none (find proposer s.proposals)) "This account has already registered a proposal"
    row ← or_fail (find committee s.committees) no_committee
    ok (record s {
      proposals =
          set proposer
            (record {
              proposer = proposer;
              id = votes.next_key (map (λ r. r.0) s.proposers);
              committee = committee;
              category = row.category;
              draft = d;
              total_votes = votes.zero_votes;
              status = pending;
              vote_start_time = 0;
              fund_start_time = 0;
              iteration_of_funding = 1;
            })
            s.proposals;
    })

  unfoldable pub editproposal : Chain → ℕ → ℕ → Draft → Wps D → Result (Wps D)
  editproposal c proposer committee d s = do
    require_auth c proposer
    check (c.is_account committee) "committee account doesn't exist"
    check_present d
    check (ltb 0 d.duration) "duration should be longer than 0 days"
    check (ltb 0 (length d.members)) "member should be more than 0"
    check (leb 3 d.total_iterations) "total number of iterations must be at least 3"
    env ← or_fail s.env no_singleton
    check_sizes lib env "duration maximum exceeded" d
    check (is_some (find proposer s.proposers)) "This account is not a registered proposer"
    proposal ← or_fail (find proposer s.proposals) "Account not found in proposal table"
    check (has_status proposal.status pending) "Proposal::status is not PROPOSAL_STATUS::PENDING"
    row ← or_fail (find committee s.committees) no_committee
    ok (record s {
      proposals =
          set proposer
            (record proposal {
              proposer = proposer;
              committee = committee;
              category = row.category;
              draft = d;
            })
            s.proposals;
    })

  -- When the current interval of funding ends, in seconds; all arithmetic is on uint32_t.
  unfoldable pub start_funding_round : Proposal D → ℕ
  start_funding_round p = wrap32 (
      p.fund_start_time
      + wrap32 (
          p.iteration_of_funding
          * (wrap32 (p.draft.duration * seconds_per_day) / p.draft.total_iterations)))

  -- The row of the proposal after a claim.
  unfoldable pub claimed : Proposal D → Proposal D
  claimed p = record p {
    iteration_of_funding = wrap32 (p.iteration_of_funding + 1);
    status = if leb p.draft.total_iterations p.iteration_of_funding then completed else p.status;
  }

  unfoldable pub claimfunds : Chain → ℕ → Wps D → Result (Payment × Wps D)
  unfolding start_funding_round claimed
  claimfunds c account s = do
    require_auth c account
    row ← or_fail (find account s.proposers) no_proposer
    proposal ← or_fail (find account s.proposals) no_proposal
    check (has_status proposal.status approved) "Proposal::status is not PROPOSAL_STATUS::APPROVED"
    check (leb proposal.iteration_of_funding proposal.draft.total_iterations)
        "all funds for this proposal have already been claimed"
    check (ltb (start_funding_round proposal) c.now_sec)
        "Please wait until the end of this interval to claim funding"
    transfer_amount ← lib.divide proposal.draft.funding_goal proposal.draft.total_iterations
    ok (
      record { from = votes.saving; to = account; quantity = transfer_amount },
      record s {
        proposers = set account (record row { last_claim_time = c.now_sec }) s.proposers;
        proposals = set account (claimed proposal) s.proposals;
      },
    )

-- ===== src/Wps/Review.antt =====
-- src/wps.cpp: what reviewers and committees decide about a proposal.
use Prim.Native.String.{len}
use wax_system_contracts.Prelude.{
  ℕ, ◌||◌, Result, ok, ◌>>=◌, ◌>>◌, check, or_fail, is_some, ltb, leb, ◌==◌, String, List, [], ◌∷◌,
  length, if◌then◌else◌, zero, suc,
}
use wax_system_contracts.Prelude.Table.{Table, find, set, erase}
use wax_system_contracts.Asset.{Chain, require_auth}
use wax_system_contracts.Wps.{
  WpsVoter, Wps, pending, rejected, on_vote, finished_voting, approved, completed, has_status,
}
use wax_system_contracts.Wps.Registry.{no_committee, no_reviewer}
use wax_system_contracts.Wps.Proposals.{no_proposal}

abbrev no_creator : String
no_creator = "Proposal creator does not exist"

abbrev not_responsible : String
not_responsible = "Reviewer is not part of this proposal's responsible committee"

unfoldable pub check_reason : String → Result (Unit {0})
check_reason reason = do
  check (ltb 0 (len reason)) "must provide a brief reason"
  check (ltb (len reason) 256) "reason is too long"

-- `votes.erase( it )` at the first vote for the proposer.
unfoldable pub drop_vote : ℕ → List ℕ → List ℕ
drop_vote proposer [] = []
drop_vote proposer (v ∷ vs) = if v == proposer then vs else v ∷ drop_vote proposer vs

-- The rows from position `begin` up to `end`, in the order of the table.
unfoldable pub clean_range : {D : Type 0} → ℕ → ℕ → ℕ → Table (WpsVoter D) → Table (WpsVoter D)
clean_range proposer begin zero rows = rows
clean_range proposer begin (suc end) [] = []
clean_range proposer zero (suc end) ((k, v) ∷ rows) =
    (k, record v { proposals = drop_vote proposer v.proposals })
    ∷ clean_range proposer zero end rows
clean_range proposer (suc begin) (suc end) (row ∷ rows) = row ∷ clean_range proposer begin end rows

module _ {D : Type 0} where
  unfoldable pub acceptprop : Chain → ℕ → ℕ → Wps D → Result (Wps D)
  acceptprop c reviewer proposer s = do
    require_auth c reviewer
    check (c.is_account proposer) no_creator
    row ← or_fail (find reviewer s.reviewers) no_reviewer
    proposal ← or_fail (find proposer s.proposals) no_proposal
    check (has_status proposal.status pending) "Proposal::status is not proposal_status::PENDING"
    check (proposal.committee == row.committee) not_responsible
    ok (record s {
      proposals =
          set proposer (record proposal { vote_start_time = c.now_sec; status = on_vote })
            s.proposals;
    })

  unfoldable pub rejectprop : Chain → ℕ → ℕ → String → Wps D → Result (Wps D)
  rejectprop c reviewer proposer reason s = do
    require_auth c reviewer
    check (c.is_account proposer) no_creator
    check_reason reason
    row ← or_fail (find reviewer s.reviewers) no_reviewer
    proposal ← or_fail (find proposer s.proposals) no_proposal
    check (proposal.committee == row.committee) not_responsible
    check
        (has_status proposal.status pending
          || has_status proposal.status on_vote
          || has_status proposal.status finished_voting)
        "invalid proposal status"
    ok (record s { proposals = set proposer (record proposal { status = rejected }) s.proposals })

  unfoldable pub approve : Chain → ℕ → ℕ → Wps D → Result (Wps D)
  approve c reviewer proposer s = do
    require_auth c reviewer
    check (c.is_account proposer) no_creator
    row ← or_fail (find reviewer s.reviewers) no_reviewer
    proposal ← or_fail (find proposer s.proposals) no_proposal
    check (proposal.committee == row.committee) not_responsible
    check (has_status proposal.status finished_voting)
        "Proposal::status is not PROPOSAL_STATUS::FINISHED_VOTING"
    ok (record s {
      proposals =
          set proposer (record proposal { fund_start_time = c.now_sec; status = approved })
            s.proposals;
    })

  unfoldable pub rmvreject : Chain → ℕ → ℕ → Wps D → Result (Wps D)
  rmvreject c reviewer proposer s = do
    require_auth c reviewer
    check (c.is_account proposer) no_creator
    row ← or_fail (find reviewer s.reviewers) no_reviewer
    proposal ← or_fail (find proposer s.proposals) "Proposal not found in rejected proposal table"
    check (has_status proposal.status rejected) "Proposal::status is not PROPOSAL_STATUS::REJECTED"
    check (proposal.committee == row.committee) not_responsible
    ok (record s { proposals = erase proposer s.proposals })

  unfoldable pub rmvcompleted : Chain → ℕ → ℕ → Wps D → Result (Wps D)
  rmvcompleted c reviewer proposer s = do
    require_auth c reviewer
    check (c.is_account proposer) no_creator
    row ← or_fail (find reviewer s.reviewers) no_reviewer
    proposal ← or_fail (find proposer s.proposals) "Proposal not found in completed proposals table"
    check (has_status proposal.status completed)
        "Proposal::status is not PROPOSAL_STATUS::COMPLETED"
    check (proposal.committee == row.committee) not_responsible
    ok (record s { proposals = erase proposer s.proposals })

  unfoldable pub rejectfund : Chain → ℕ → ℕ → String → Wps D → Result (Wps D)
  rejectfund c committeeman proposer reason s = do
    require_auth c committeeman
    check (c.is_account proposer) no_creator
    check_reason reason
    row ← or_fail (find committeeman s.committees) no_committee
    proposal ← or_fail (find proposer s.proposals) no_proposal
    check (proposal.committee == row.committeeman || row.is_oversight)
        "Committee is not associated with this proposal"
    check (has_status proposal.status approved) "Proposal::status is not PROPOSAL_STATUS::APPROVED"
    ok (record s { proposals = set proposer (record proposal { status = rejected }) s.proposals })

  -- A range that runs past the last row aborts when the iterator would pass the end.
  unfoldable pub cleanvotes : Chain → ℕ → ℕ → ℕ → ℕ → Wps D → Result (Wps D)
  cleanvotes c reviewer proposer begin end' s = do
    require_auth c reviewer
    check (c.is_account proposer) no_creator
    check (is_some (find reviewer s.reviewers)) no_reviewer
    check (ltb begin end') "Invalid range"
    check (leb end' (length s.wpsvoters)) "cannot increment end iterator"
    ok (record s { wpsvoters = clean_range proposer begin end' s.wpsvoters })

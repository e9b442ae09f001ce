-- ===== src/Wps.antt =====
-- The worker proposal system of contracts/eosio.system: its tables in
-- include/eosio.system/eosio.system.hpp and the types that src/wps.cpp works on. The floating-point
-- numbers of the vote weights, the chain's clock base, the toolkit's key generator and the savings
-- account are the parameter `VoteLib`. The rows of `voters` and the activated stake belong to the
-- voting part of the contract, which this part only reads.
pub mod Registry
pub mod Proposals
pub mod Review
pub mod Voting
pub mod Actions
pub mod Lifecycle
pub mod Funding
mod Tests
use wax_system_contracts.Prelude.{
  ℕ, ◌+◌, ◌*◌, ◌%◌, ◌/◌, ◌^◌, ◌≡◌, Bool, true, false, Option, none, some, Result, ok, err, List, [],
  ◌∷◌, String, map, ◌==◌,
}
use wax_system_contracts.Prelude.Int.{ℤ, pos}
use wax_system_contracts.Prelude.Table.{Table}
use wax_system_contracts.Asset.{Asset}

-- `double`, with the operations that the votes use.
pub record VoteLib (D : Type 0) : Type 0 where
  pub zero_votes : D
  pub plus : D → D → D
  pub minus : D → D → D
  pub times : D → D → D
  pub over : D → D → D
  pub power : D → D → D
  pub less : D → D → Bool
  pub at_most : D → D → Bool
  pub of_int : ℤ → D
  pub to_int : D → ℤ
  -- `block_timestamp::block_timestamp_epoch`, in milliseconds
  pub timestamp_epoch : ℕ
  -- `available_primary_key`, of a table with these keys
  pub next_key : List ℕ → ℕ
  -- `saving_account`
  pub saving : ℕ

pub data Status : Type 0 where
  pending rejected on_vote finished_voting approved completed : Status

-- The values of `PROPOSAL_STATUS`.
abbrev pub code_of : Status → ℕ
code_of pending = 1
code_of rejected = 2
code_of on_vote = 3
code_of finished_voting = 4
code_of approved = 5
code_of completed = 6

abbrev pub has_status : Status → Status → Bool
has_status a b = code_of a == code_of b

-- What a proposer says of itself.
pub record Profile : Type 0 where
  pub first_name : String
  pub last_name : String
  pub img_url : String
  pub bio : String
  pub country : String
  pub telegram : String
  pub website : String
  pub linkedin : String

pub record Proposer : Type 0 where
  pub account : ℕ
  pub profile : Profile
  pub last_claim_time : ℕ

-- The fields of a proposal that its proposer sets.
pub record Draft : Type 0 where
  pub subcategory : ℕ
  pub title : String
  pub summary : String
  pub project_img_url : String
  pub description : String
  pub roadmap : String
  pub duration : ℕ
  pub members : List String
  pub funding_goal : Asset
  pub total_iterations : ℕ

pub record Proposal (D : Type 0) : Type 0 where
  pub proposer : ℕ
  pub id : ℕ
  pub committee : ℕ
  pub category : String
  pub draft : Draft
  pub total_votes : D
  pub status : Status
  pub vote_start_time : ℕ
  pub fund_start_time : ℕ
  pub iteration_of_funding : ℕ

pub record Committee : Type 0 where
  pub committeeman : ℕ
  pub category : String
  pub is_oversight : Bool

pub record Reviewer : Type 0 where
  pub account : ℕ
  pub committee : ℕ
  pub first_name : String
  pub last_name : String

pub record WpsEnv : Type 0 where
  pub total_voting_percent : ℕ
  pub duration_of_voting : ℕ
  pub max_duration_of_funding : ℕ
  pub total_iteration_of_funding : ℕ

pub record WpsVoter (D : Type 0) : Type 0 where
  pub owner : ℕ
  pub proposals : List ℕ
  pub last_vote_weight : D

-- The part of a row of `voters` that this part reads.
pub record VoterView : Type 0 where
  pub staked : ℤ
  pub is_proxy : Bool

pub record Wps (D : Type 0) : Type 0 where
  pub proposers : Table Proposer
  pub proposals : Table (Proposal D)
  pub committees : Table Committee
  pub reviewers : Table Reviewer
  pub wpsvoters : Table (WpsVoter D)
  pub env : Option WpsEnv
  pub total_stake : D
  pub voters : Table VoterView
  pub total_activated_stake : ℤ

-- An inline transfer of the system token.
pub record Payment : Type 0 where
  pub from : ℕ
  pub to : ℕ
  pub quantity : Asset

-- A uint32_t result, and `seconds_per_day`.
abbrev pub wrap32 : ℕ → ℕ
wrap32 n = n % 2 ^ 32

abbrev pub seconds_per_day : ℕ
seconds_per_day = 24 * 3600

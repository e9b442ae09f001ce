-- ===== src/Wps/Tests.antt =====
-- Runs of the worker proposal system and its theorems at concrete inputs.
use wax_system_contracts.Prelude.{
  ℕ, ◌≡◌, ◌<◌, ◌≤◌, ◌+◌, ◌-◌, ◌*◌, ◌/◌, ◌^◌, refl, Bool, true, none, some, ok, arith, [], ◌∷◌, ltb,
  leb, if◌then◌else◌,
}
use wax_system_contracts.Prelude.Int.{pos, pos_part, ◌+ℤ◌, ◌≤ℤ◌, quot_ℤ}
use wax_system_contracts.Prelude.Table
use wax_system_contracts.Asset.{Asset, Chain}
use wax_system_contracts.Asset.Sample.{sample_lib, sample_laws}
use wax_system_contracts.Wps.{
  VoteLib, Status, pending, on_vote, approved, completed, wrap32, Draft, Proposal, Payment, Wps,
  Proposer,
}
use wax_system_contracts.Wps.Proposals.{claimfunds, claimed, start_funding_round}
use wax_system_contracts.Wps.Review.{acceptprop}
use wax_system_contracts.Wps.Actions.{accepts, apply}
use wax_system_contracts.Wps.Lifecycle.{Moves}
use wax_system_contracts.Wps.Lifecycle.Steps.{apply-Moves}
use wax_system_contracts.Wps.Funding.{claimfunds_sound, payouts_bounded, claim_all, paid}

abbrev vote_lib : VoteLib ℕ
vote_lib = record {
  zero_votes = 0;
  plus = λ a b. a + b;
  minus = λ a b. a - b;
  times = λ a b. a * b;
  over = λ a b. a / b;
  power = λ a b. a ^ b;
  less = ltb;
  at_most = leb;
  of_int = pos_part;
  to_int = pos;
  timestamp_epoch = 946684800000;
  next_key = λ keys. 0;
  saving = 77;
}

abbrev at_time : ℕ → Chain
at_time sec = record {
  has_auth = λ n. true;
  is_account = λ n. true;
  has_permission = λ a p. true;
  now = sec * 1000000;
  now_sec = sec;
}

abbrev coins : ℕ → Asset
coins n = record { amount = pos n; symbol = record { code = 7; precision = 8 } }

abbrev draft : Draft
draft = record {
  subcategory = 1;
  title = "t";
  summary = "s";
  project_img_url = "u";
  description = "d";
  roadmap = "r";
  duration = 30;
  members = "m" ∷ [];
  funding_goal = coins 101;
  total_iterations = 2;
}

abbrev proposal : Status → Proposal ℕ
proposal status = record {
  proposer = 5;
  id = 0;
  committee = 9;
  category = "c";
  draft = draft;
  total_votes = 0;
  status = status;
  vote_start_time = 0;
  fund_start_time = 100;
  iteration_of_funding = 1;
}

abbrev proposer : ℕ → Proposer
proposer time = record {
  account = 5;
  profile = record {
    first_name = "f";
    last_name = "l";
    img_url = "i";
    bio = "b";
    country = "c";
    telegram = "t";
    website = "w";
    linkedin = "k";
  };
  last_claim_time = time;
}

abbrev with_proposal : Proposal ℕ → ℕ → Wps ℕ
with_proposal p time = record {
  proposers = (5, proposer time) ∷ [];
  proposals = (5, p) ∷ [];
  committees = (9, record { committeeman = 9; category = "c"; is_oversight = true }) ∷ [];
  reviewers = (8, record { account = 8; committee = 9; first_name = "f"; last_name = "l" }) ∷ [];
  wpsvoters = [];
  env = none;
  total_stake = 0;
  voters = [];
  total_activated_stake = pos 0;
}

abbrev late : Chain
late = at_time 2000000

abbrev share : Payment
share = record { from = 77; to = 5; quantity = coins 50 }

abbrev paid_once : Proposal ℕ
paid_once = record (proposal approved) { iteration_of_funding = 2 }

abbrev funded : Wps ℕ
funded = with_proposal (proposal approved) 0

pays : claimfunds sample_lib vote_lib late 5 funded ≡ ok (share, with_proposal paid_once 2000000)
unfolding claimfunds claimed start_funding_round Table.find Table.set sample_lib quot_ℤ
pays = refl

-- The goal is 101 and an iteration pays 50: two claims pay 100, and a third one nothing.
pays_twice :
    paid (
      claim_all sample_lib sample_laws vote_lib
        (late ∷ late ∷ at_time 4000000 ∷ at_time 6000000 ∷ [])
        5
        funded)
    ≡ pos 100
unfolding paid claim_all claimfunds claimed start_funding_round Table.find Table.set sample_lib
    quot_ℤ ◌+ℤ◌
pays_twice = refl

claimfunds_sound_example :
    (p : Proposal ℕ) × (Table.find 5 funded.proposals ≡ some p)
    × (◌≡◌ {A = Bool} true true)
    × (p.status ≡ approved)
    × (p.iteration_of_funding ≤ p.draft.total_iterations)
    × (start_funding_round sample_lib vote_lib p < 2000000)
    × (sample_lib.divide p.draft.funding_goal p.draft.total_iterations ≡ ok (coins 50))
    × (◌≡◌ {A = ℕ} 77 77)
    × (◌≡◌ {A = ℕ} 5 5)
    × ((5, paid_once) ∷ []
        ≡ Table.set 5
            (record p {
              iteration_of_funding = wrap32 (p.iteration_of_funding + 1);
              status =
                  if leb p.draft.total_iterations p.iteration_of_funding
                  then completed
                  else approved;
            })
            funded.proposals)
claimfunds_sound_example =
    claimfunds_sound sample_lib sample_laws vote_lib late 5 funded (with_proposal paid_once 2000000)
      share pays

payouts_bounded_example :
    paid (
      claim_all sample_lib sample_laws vote_lib
        (late ∷ late ∷ at_time 4000000 ∷ at_time 6000000 ∷ [])
        5
        funded)
    ≤ℤ pos 101
unfolding Table.find
payouts_bounded_example =
    payouts_bounded sample_lib sample_laws vote_lib
      (late ∷ late ∷ at_time 4000000 ∷ at_time 6000000 ∷ []) 5 101 funded (proposal approved) refl
      refl (omega arith) (omega arith) refl

apply-Moves_example : Moves (some pending) (some on_vote)
unfolding apply acceptprop Table.find Table.set
apply-Moves_example =
    apply-Moves sample_lib vote_lib 1 (at_time 300) (accepts 8 5)
      (with_proposal (proposal pending) 0)
      (with_proposal (record (proposal on_vote) { vote_start_time = 300 }) 0) 5 refl

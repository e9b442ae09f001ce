-- ===== src/Wps/Voting.antt =====
-- src/wps.cpp: `update_wps_votes`, and `stake2vote` of src/voting.cpp.
use wax_system_contracts.Prelude.{
  ℕ, ◌+◌, ◌-◌, ◌*◌, ◌/◌, ◌^◌, Bool, true, false, not, ◌&&◌, Option, none, some, Result, ok, ◌>>=◌,
  ◌>>◌, check, or_fail, leb, List, [], ◌∷◌, length, if◌then◌else◌, contains,
}
use wax_system_contracts.Prelude.Int.{ℤ, pos, ◌-ℤ◌, quot_ℤ, leb_ℤ}
use wax_system_contracts.Prelude.Table.{Table, find, set}
use wax_system_contracts.Asset.{Chain, require_auth}
use wax_system_contracts.Wps.{
  VoteLib, Proposal, WpsVoter, WpsEnv, Wps, rejected, on_vote, finished_voting, has_status, wrap32,
  seconds_per_day,
}

abbrev pub min_activated_stake : ℤ
min_activated_stake = pos 1500000000000

-- The double loop over all pairs of positions.
unfoldable pub all_distinct : List ℕ → Bool
all_distinct [] = true
all_distinct (p ∷ ps) = not (contains p ps) && all_distinct ps

-- `std::map<name, std::pair<double, bool>>`, in the order of the names.
abbrev pub Deltas : Type 0 → Type 0
Deltas D = Table (D × Bool)

module _ {D : Type 0} (votes : VoteLib D) where
  unfoldable pub stake2vote : ℕ → ℤ → D
  stake2vote now_sec staked = votes.times (votes.of_int staked) (
      votes.power (votes.of_int (pos 2)) (
        votes.over
          (votes.of_int
            (quot_ℤ (pos now_sec -ℤ pos (votes.timestamp_epoch / 1000)) (seconds_per_day * 7)))
          (votes.of_int (pos 13))))

  -- `deltas[p]`, which is made as (0, false) where it is missing.
  unfoldable pub delta_of : ℕ → Deltas D → D
  delta_of p deltas = elim (find p deltas) [ none ↦ votes.zero_votes | some (d, _) ↦ d ]

  unfoldable pub withdraw_votes : D → List ℕ → Deltas D → Deltas D
  unfolding delta_of
  withdraw_votes weight [] deltas = deltas
  withdraw_votes weight (p ∷ ps) deltas =
      withdraw_votes weight ps (set p (votes.minus (delta_of p deltas) weight, false) deltas)

  unfoldable pub cast_votes : D → List ℕ → Deltas D → Deltas D
  unfolding delta_of
  cast_votes weight [] deltas = deltas
  cast_votes weight (p ∷ ps) deltas =
      cast_votes weight ps (set p (votes.plus (delta_of p deltas) weight, true) deltas)

  -- A proposal on vote after its votes have changed: out of time, or counted.
  unfoldable pub count_votes : ℕ → WpsEnv → D → D → Proposal D → Proposal D
  count_votes now_sec env total_stake delta p =
      if leb (wrap32 (env.duration_of_voting * seconds_per_day))
        (wrap32 (now_sec + 2 ^ 32 - p.vote_start_time))
      then record p { status = rejected }
      else let sum = votes.plus p.total_votes delta in
        let total = if votes.less sum votes.zero_votes then votes.zero_votes else sum in
        let needed =
          votes.over
            (votes.times (stake2vote now_sec (votes.to_int total_stake))
              (votes.of_int (pos env.total_voting_percent)))
            (votes.of_int (pos 100)) in
        record p {
          total_votes = total;
          status = if votes.less needed total then finished_voting else p.status;
        }

  -- One round of the loop over the deltas.
  unfoldable pub apply_delta : ℕ → ℕ → D → Wps D → Result (Wps D)
  apply_delta now_sec key delta s = elim (find key s.proposals) [
    | none ↦ ok s
    | some p ↦
        if has_status p.status on_vote
        then (do
          env ← or_fail s.env "singleton does not exist"
          ok (record s {
            proposals = set key (count_votes now_sec env s.total_stake delta p) s.proposals;
          }))
        else ok s
  ]

  unfoldable pub apply_deltas : ℕ → Deltas D → Wps D → Result (Wps D)
  apply_deltas now_sec [] s = ok s
  apply_deltas now_sec ((key, (delta, _)) ∷ rest) s =
      apply_delta now_sec key delta s >>= apply_deltas now_sec rest

  -- The votes that the voter's last call has cast.
  unfoldable pub old_deltas : Option (WpsVoter D) → Deltas D
  old_deltas none = []
  old_deltas (some v) =
      if votes.less votes.zero_votes v.last_vote_weight
      then withdraw_votes v.last_vote_weight v.proposals []
      else []

  -- The votes that this call casts are added to those that it takes back.
  unfoldable pub new_deltas : D → List ℕ → Deltas D → Deltas D
  new_deltas weight proposals old =
      if votes.at_most votes.zero_votes weight then cast_votes weight proposals old else old

  unfoldable pub update_wps_votes : Chain → ℕ → List ℕ → Wps D → Result (Wps D)
  update_wps_votes c voter_name proposals s = do
    check (votes.less votes.zero_votes s.total_stake) "system-wide stake must be greater than 0"
    check (leb (length proposals) 30) "attempt to vote for too many proposals"
    check (all_distinct proposals) "proposal votes must be unique"
    voter ← or_fail (find voter_name s.voters) "user must stake before they can vote"
    let wpsvoter = find voter_name s.wpsvoters
    check (leb_ℤ min_activated_stake s.total_activated_stake)
        "cannot update wps votes until the chain is activated (at least 15% of all tokens participate in voting)"
    let new_vote_weight = stake2vote c.now_sec voter.staked
    check (not voter.is_proxy) "Proxies can't vote for worker proposals"
    s' ← apply_deltas c.now_sec (new_deltas new_vote_weight proposals (old_deltas wpsvoter)) s
    ok (record s' {
      wpsvoters =
          set voter_name
            (record {
              owner = voter_name;
              proposals = proposals;
              last_vote_weight = new_vote_weight;
            })
            s'.wpsvoters;
    })

  unfoldable pub voteproposal : Chain → ℕ → List ℕ → Wps D → Result (Wps D)
  voteproposal c voter_name proposals s = do
    require_auth c voter_name
    update_wps_votes c voter_name proposals s

-- ===== src/Wps/Lifecycle/Vote.antt =====
-- What a vote does to the status of every proposal.
use wax_system_contracts.Prelude.{
  ℕ, ◌≡◌, refl, subst, sym, ap, ◌∙◌, true, Option, some, ok, arith, ◌==◌, inl, inr, ◌⊎◌, Bool-cases,
  Option-cases, Result-cases, List, [], ◌∷◌,
}
use wax_system_contracts.Prelude.Table
use wax_system_contracts.Asset.{Chain}
use wax_system_contracts.Wps.{
  VoteLib, WpsEnv, Proposal, Wps, Status, rejected, on_vote, finished_voting, has_status,
}
use wax_system_contracts.Wps.Voting.{
  Deltas, count_votes, apply_delta, apply_deltas, stake2vote, new_deltas, old_deltas,
  update_wps_votes, voteproposal,
}
use wax_system_contracts.Wps.Lifecycle.{status_in, Moves, keeps, wins_vote, loses_vote}

-- A vote decides about proposals on vote, and about nothing else.
abbrev Decides : Option Status → Option Status → Type 0
Decides a b =
    (b ≡ a)
    ⊎ ((a ≡ some on_vote) × (b ≡ some finished_voting))
    ⊎ ((a ≡ some on_vote) × (b ≡ some rejected))

Decides-trans : (a b c : Option Status) → Decides a b → Decides b c → Decides a c
Decides-trans a b c (inl e) d = ground arith
Decides-trans a b c (inr (inl e)) (inl d) = inr (inl (e.0, d ∙ e.1))
Decides-trans a b c (inr (inl e)) (inr d) = absurd (ground arith)
Decides-trans a b c (inr (inr e)) (inl d) = inr (inr (e.0, d ∙ e.1))
Decides-trans a b c (inr (inr e)) (inr d) = absurd (ground arith)

Decides-Moves : (a b : Option Status) → Decides a b → Moves a b
Decides-Moves a b (inl e) = keeps e
Decides-Moves a b (inr (inl (e, f))) = wins_vote e f
Decides-Moves a b (inr (inr (e, f))) = loses_vote e f

module _ {D : Type 0} (votes : VoteLib D) where
  count_votes-Decides :
      (now_sec : ℕ) (env : WpsEnv) (stake delta : D) (p : Proposal D)
      → p.status ≡ on_vote
      → Decides (some p.status) (some (count_votes votes now_sec env stake delta p).status)
  unfolding count_votes
  count_votes-Decides now_sec env stake delta p e = ground arith

  decided :
      (k : ℕ) (t : Table.Table (Proposal D)) (old new : Proposal D)
      → Table.find k t ≡ some old
      → Decides (some old.status) (some new.status)
      → (p : ℕ)
      → Decides (status_in (Table.find p t)) (status_in (Table.find p (Table.set k new t)))
  decided k t old new found d p = elim (Bool-cases (k == p)) [
    | inl hit ↦
        rw (Table.find-set k p new t, hit)
          (subst (λ a. Decides a (some new.status)) (sym (ap status_in (same hit))) d)
    | inr miss ↦ rw (Table.find-set k p new t, miss) (inl refl)
  ]
    where
      same : (k == p) ≡ true → Table.find p t ≡ some old
      same hit = ground arith

  apply_delta-Decides :
      (now_sec key : ℕ) (delta : D) (s t : Wps D) (p : ℕ)
      → apply_delta votes now_sec key delta s ≡ ok t
      → Decides (status_in (Table.find p s.proposals)) (status_in (Table.find p t.proposals))
  unfolding apply_delta
  apply_delta-Decides now_sec key delta s t p h = elim (Option-cases (Table.find key s.proposals)) [
    | inl missing ↦ inl (ground arith)
    | inr (old, found) ↦ elim (Bool-cases (has_status old.status on_vote)) [
      | inr off ↦ inl (ground arith)
      | inl on ↦ elim (Option-cases s.env) [
        | inl unset ↦ absurd (ground arith)
        | inr (env, e) ↦
            let new = count_votes votes now_sec env s.total_stake delta old in
            let t_is : t.proposals ≡ Table.set key new s.proposals = ground arith in
            rw t_is (
              decided key s.proposals old new found
                (count_votes-Decides now_sec env s.total_stake delta old (ground arith)) p)
      ]
    ]
  ]

  apply_deltas-Decides :
      (now_sec : ℕ) (deltas : Deltas D) (s t : Wps D) (p : ℕ)
      → apply_deltas votes now_sec deltas s ≡ ok t
      → Decides (status_in (Table.find p s.proposals)) (status_in (Table.find p t.proposals))
  unfolding apply_deltas
  apply_deltas-Decides now_sec [] s t p h = inl (ground arith)
  apply_deltas-Decides now_sec ((key, (delta, new)) ∷ rest) s t p h =
      elim (Result-cases (apply_delta votes now_sec key delta s)) [
        | inr (_, e) ↦ absurd (ground arith)
        | inl (mid, e) ↦
            Decides-trans _ _ _ (apply_delta-Decides now_sec key delta s mid p e)
              (apply_deltas-Decides now_sec rest mid t p (rw e at h))
      ]

  pub voteproposal-Moves :
      (c : Chain) (voter : ℕ) (proposals : List ℕ) (s t : Wps D) (p : ℕ)
      → voteproposal votes c voter proposals s ≡ ok t
      → Moves (status_in (Table.find p s.proposals)) (status_in (Table.find p t.proposals))
  unfolding voteproposal update_wps_votes
  voteproposal-Moves c voter proposals s t p h = elim (Option-cases (Table.find voter s.voters)) [
    | inl missing ↦ absurd (ground arith)
    | inr (row, found) ↦
        let weight = stake2vote votes c.now_sec row.staked in
        let deltas =
          new_deltas votes weight proposals (old_deltas votes (Table.find voter s.wpsvoters)) in
        elim (Result-cases (apply_deltas votes c.now_sec deltas s)) [
          | inr (_, e) ↦ absurd (ground arith)
          | inl (mid, e) ↦
              let same : t.proposals ≡ mid.proposals = ground arith in
              rw same (Decides-Moves _ _ (apply_deltas-Decides c.now_sec deltas s mid p e))
        ]
  ]

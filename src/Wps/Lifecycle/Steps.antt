-- ===== src/Wps/Lifecycle/Steps.antt =====
-- What each action does to the status of every proposal.
use wax_system_contracts.Prelude.{
  ℕ, ◌≡◌, refl, ap, true, none, some, ok, arith, inl, inr, Option-cases, Result-cases, Bool-cases,
  leb, String, ◌||◌, map, ◌∙◌,
}
use wax_system_contracts.Prelude.Table
use wax_system_contracts.Asset.{AssetLib, Chain}
use wax_system_contracts.Wps.{
  VoteLib, Draft, Payment, Proposal, Wps, Status, pending, rejected, on_vote, finished_voting,
  approved, completed, has_status,
}
use wax_system_contracts.Wps.Registry.{
  regproposer, editproposer, rmvproposer, regreviewer, editreviewer, rmvreviewer, setwpsenv,
  setwpsstate, regcommittee, edcommittee, rmvcommittee,
}
use wax_system_contracts.Wps.Proposals.{regproposal, editproposal, claimfunds, claimed}
use wax_system_contracts.Wps.Review.{
  acceptprop, rejectprop, approve, rmvreject, rmvcompleted, rejectfund, cleanvotes,
}
use wax_system_contracts.Wps.Actions.{
  Op, regproposes, editproposes, rmvproposes, regreviews, editreviews, rmvreviews, sets_env,
  sets_state, regcommits, edcommits, rmvcommits, registers, edits, claims, accepts, approves,
  rmvrejects, rmvcompletes, rejects, rejectfunds, cleans, votes_for, apply,
}
use wax_system_contracts.Wps.Lifecycle.{status_in, Moves, written, removed}
use wax_system_contracts.Wps.Lifecycle
use wax_system_contracts.Wps.Lifecycle.Vote.{voteproposal-Moves}

has_status-eq : (a b : Status) → has_status a b ≡ true → a ≡ b
has_status-eq a b h = ground arith

module _ {D : Type 0} where
  -- An action that leaves the table of proposals alone.
  kept :
      (s t : Wps D) (p : ℕ)
      → t.proposals ≡ s.proposals
      → Moves (status_in (Table.find p s.proposals)) (status_in (Table.find p t.proposals))
  kept s t p e = rw e (Lifecycle.keeps refl)

  -- A row that is found with one status and written with the next, or erased.
  stepped :
      (s t : Wps D) (k p : ℕ) (old new : Proposal D)
      → Table.find k s.proposals ≡ some old
      → Moves (some old.status) (some new.status)
      → t.proposals ≡ Table.set k new s.proposals
      → Moves (status_in (Table.find p s.proposals)) (status_in (Table.find p t.proposals))
  stepped s t k p old new found move e = rw e (written k s.proposals new (rw found move) p)

  dropped :
      (s t : Wps D) (k p : ℕ) (old : Proposal D)
      → Table.find k s.proposals ≡ some old
      → Moves (some old.status) none
      → t.proposals ≡ Table.erase k s.proposals
      → Moves (status_in (Table.find p s.proposals)) (status_in (Table.find p t.proposals))
  dropped s t k p old found move e = rw e (removed k s.proposals (rw found move) p)

module _ {D : Type 0} (c : Chain) (r k : ℕ) (s t : Wps D) (p : ℕ) where
  acceptprop-Moves :
      acceptprop c r k s ≡ ok t
      → Moves (status_in (Table.find p s.proposals)) (status_in (Table.find p t.proposals))
  unfolding acceptprop
  acceptprop-Moves h = elim (Option-cases (Table.find k s.proposals)) [
    | inl missing ↦ absurd (ground arith)
    | inr (old, found) ↦
        stepped s t k p old (record old { vote_start_time = c.now_sec; status = on_vote }) found
          (Lifecycle.goes_to_vote (ground (arith, has_status-eq old.status pending)) refl)
          (ground arith)
  ]

  approve-Moves :
      approve c r k s ≡ ok t
      → Moves (status_in (Table.find p s.proposals)) (status_in (Table.find p t.proposals))
  unfolding approve
  approve-Moves h = elim (Option-cases (Table.find k s.proposals)) [
    | inl missing ↦ absurd (ground arith)
    | inr (old, found) ↦
        stepped s t k p old (record old { fund_start_time = c.now_sec; status = approved }) found
          (Lifecycle.is_approved (ground (arith, has_status-eq old.status finished_voting)) refl)
          (ground arith)
  ]

  rejectprop-Moves :
      (reason : String)
      → rejectprop c r k reason s ≡ ok t
      → Moves (status_in (Table.find p s.proposals)) (status_in (Table.find p t.proposals))
  unfolding rejectprop
  rejectprop-Moves reason h = elim (Option-cases (Table.find k s.proposals)) [
    | inl missing ↦ absurd (ground arith)
    | inr (old, found) ↦
        stepped s t k p old (record old { status = rejected }) found
          (refused old.status (ground arith)) (ground arith)
  ]
    where
      refused :
          (x : Status)
          → (has_status x pending || has_status x on_vote || has_status x finished_voting) ≡ true
          → Moves (some x) (some rejected)
      refused pending e = Lifecycle.is_turned_down refl refl
      refused on_vote e = Lifecycle.loses_vote refl refl
      refused finished_voting e = Lifecycle.fails_review refl refl
      refused rejected e = cc
      refused approved e = cc
      refused completed e = cc

  rejectfund-Moves :
      (reason : String)
      → rejectfund c r k reason s ≡ ok t
      → Moves (status_in (Table.find p s.proposals)) (status_in (Table.find p t.proposals))
  unfolding rejectfund
  rejectfund-Moves reason h = elim (Option-cases (Table.find k s.proposals)) [
    | inl missing ↦ absurd (ground arith)
    | inr (old, found) ↦
        stepped s t k p old (record old { status = rejected }) found
          (Lifecycle.loses_funds (ground (arith, has_status-eq old.status approved)) refl)
          (ground arith)
  ]

  rmvreject-Moves :
      rmvreject c r k s ≡ ok t
      → Moves (status_in (Table.find p s.proposals)) (status_in (Table.find p t.proposals))
  unfolding rmvreject
  rmvreject-Moves h = elim (Option-cases (Table.find k s.proposals)) [
    | inl missing ↦ absurd (ground arith)
    | inr (old, found) ↦
        dropped s t k p old found
          (Lifecycle.removes_rejected (ground (arith, has_status-eq old.status rejected)) refl)
          (ground arith)
  ]

  rmvcompleted-Moves :
      rmvcompleted c r k s ≡ ok t
      → Moves (status_in (Table.find p s.proposals)) (status_in (Table.find p t.proposals))
  unfolding rmvcompleted
  rmvcompleted-Moves h = elim (Option-cases (Table.find k s.proposals)) [
    | inl missing ↦ absurd (ground arith)
    | inr (old, found) ↦
        dropped s t k p old found
          (Lifecycle.removes_completed (ground (arith, has_status-eq old.status completed)) refl)
          (ground arith)
  ]

module _ {D : Type 0} (lib : AssetLib) (votes : VoteLib D) (c : Chain) (k : ℕ) (s t : Wps D)
    (p : ℕ) where
  regproposal-Moves :
      (committee : ℕ) (d : Draft)
      → regproposal lib votes c k committee d s ≡ ok t
      → Moves (status_in (Table.find p s.proposals)) (status_in (Table.find p t.proposals))
  unfolding regproposal
  regproposal-Moves committee d h = elim (Option-cases (Table.find committee s.committees)) [
    | inl missing ↦ absurd (ground arith)
    | inr (row, found) ↦
        let new : Proposal D = record {
          proposer = k;
          id = votes.next_key (map (λ r. r.0) s.proposers);
          committee = committee;
          category = row.category;
          draft = d;
          total_votes = votes.zero_votes;
          status = pending;
          vote_start_time = 0;
          fund_start_time = 0;
          iteration_of_funding = 1;
        } in
        let fresh : Table.find k s.proposals ≡ none = ground arith in
        let t_is : t.proposals ≡ Table.set k new s.proposals = ground arith in
        rw t_is (written k s.proposals new (rw fresh (Lifecycle.registers refl refl)) p)
  ]

  editproposal-Moves :
      (committee : ℕ) (d : Draft)
      → editproposal lib votes c k committee d s ≡ ok t
      → Moves (status_in (Table.find p s.proposals)) (status_in (Table.find p t.proposals))
  unfolding editproposal
  editproposal-Moves committee d h = elim (Option-cases (Table.find committee s.committees)) [
    | inl missing ↦ absurd (ground arith)
    | inr (row, there) ↦ elim (Option-cases (Table.find k s.proposals)) [
      | inl missing ↦ absurd (ground arith)
      | inr (old, found) ↦
          stepped s t k p old
            (record old { proposer = k; committee = committee; category = row.category; draft = d })
            found (Lifecycle.keeps refl) (ground arith)
    ]
  ]

  claimfunds-Moves :
      (payment : Payment)
      → claimfunds lib votes c k s ≡ ok (payment, t)
      → Moves (status_in (Table.find p s.proposals)) (status_in (Table.find p t.proposals))
  unfolding claimfunds
  claimfunds-Moves payment h = elim (Option-cases (Table.find k s.proposals)) [
    | inl missing ↦ absurd (ground arith)
    | inr (old, found) ↦
        stepped s t k p old (claimed lib votes old) found
          (paid old (has_status-eq old.status approved (ground arith))) (ground arith)
  ]
    where
      paid :
          (old : Proposal D)
          → old.status ≡ approved
          → Moves (some old.status) (some (claimed lib votes old).status)
      paid old e = elim (Bool-cases (leb old.draft.total_iterations old.iteration_of_funding)) [
        | inl last ↦ Lifecycle.is_paid_out (ap some e) (rw last)
        | inr more ↦ Lifecycle.keeps (rw more)
      ]

module _ {D : Type 0} (lib : AssetLib) (votes : VoteLib D) (self : ℕ) where
  -- Every action moves the status of every proposal by at most one step of its life: it enters as
  -- pending, is put on vote, passes or loses the vote, is approved, is paid out; it can be rejected
  -- until it is paid out, and leaves the table only when it is rejected or paid out.
  pub apply-Moves :
      (c : Chain) (op : Op D) (s t : Wps D) (p : ℕ)
      → apply lib votes self c op s ≡ ok t
      → Moves (status_in (Table.find p s.proposals)) (status_in (Table.find p t.proposals))
  unfolding apply regproposer editproposer rmvproposer regreviewer editreviewer rmvreviewer
      setwpsenv setwpsstate regcommittee edcommittee rmvcommittee cleanvotes
  apply-Moves c (regproposes account profile) s t p h = kept s t p (ground arith)
  apply-Moves c (editproposes account profile) s t p h =
      kept s t p (ground (arith, Option-cases (Table.find account s.proposers)))
  apply-Moves c (rmvproposes account) s t p h = kept s t p (ground arith)
  apply-Moves c (regreviews committee reviewer first last) s t p h = kept s t p (ground arith)
  apply-Moves c (editreviews committee reviewer first last) s t p h = kept s t p (ground arith)
  apply-Moves c (rmvreviews committee reviewer) s t p h = kept s t p (ground arith)
  apply-Moves c (sets_env env) s t p h = kept s t p (ground arith)
  apply-Moves c (sets_state total) s t p h = kept s t p (ground arith)
  apply-Moves c (regcommits man category oversight) s t p h = kept s t p (ground arith)
  apply-Moves c (edcommits man category oversight) s t p h = kept s t p (ground arith)
  apply-Moves c (rmvcommits man) s t p h = kept s t p (ground arith)
  apply-Moves c (registers k committee draft) s t p h =
      regproposal-Moves lib votes c k s t p committee draft h
  apply-Moves c (edits k committee draft) s t p h =
      editproposal-Moves lib votes c k s t p committee draft h
  apply-Moves c (claims k) s t p h = elim (Result-cases (claimfunds lib votes c k s)) [
    | inr (_, e) ↦ absurd (ground arith)
    | inl ((payment, t'), e) ↦ claimfunds-Moves lib votes c k s t p payment (e ∙ ground arith)
  ]
  apply-Moves c (accepts r k) s t p h = acceptprop-Moves c r k s t p h
  apply-Moves c (approves r k) s t p h = approve-Moves c r k s t p h
  apply-Moves c (rmvrejects r k) s t p h = rmvreject-Moves c r k s t p h
  apply-Moves c (rmvcompletes r k) s t p h = rmvcompleted-Moves c r k s t p h
  apply-Moves c (rejects r k reason) s t p h = rejectprop-Moves c r k s t p reason h
  apply-Moves c (rejectfunds r k reason) s t p h = rejectfund-Moves c r k s t p reason h
  apply-Moves c (cleans r k from to) s t p h = kept s t p (ground arith)
  apply-Moves c (votes_for voter proposals) s t p h =
      voteproposal-Moves votes c voter proposals s t p h

-- ===== src/Msig/Coherence/Steps.antt =====
-- Every action of eosio.msig keeps its tables coherent.
use wax_system_contracts.Prelude.{
  ℕ, ◌≡◌, refl, subst, true, none, some, ok, arith, Option-cases, Result-cases, inl, inr, [],
  is_some, map,
}
use wax_system_contracts.Prelude.Scoped
use wax_system_contracts.Prelude.Table
use wax_system_contracts.Asset.{Chain}
use wax_system_contracts.Msig.{
  Msig, ApprovalsInfo, TrxLib, Proposal, get_approvals_and_adjust_table, adjust_new, adjust_old,
}
use wax_system_contracts.Msig.Actions.{
  propose, approve, unapprove, cancel, exec, invalidate, provide, take_back, start_clock,
  reset_clock, Op, proposes, approves, unapproves, cancels, execs, invalidates, apply,
}
use wax_system_contracts.Msig.Coherence.{
  IsCoherent, Alike-IsCoherent, Alike-trans, provide-Alike, take_back-Alike, start_clock-Alike,
  reset_clock-Alike,
}

-- A proposal and its approvals come in, or go out, together.
added :
    (proposer name : ℕ) (s : Msig) (prop : Proposal) (row : ApprovalsInfo)
    → IsCoherent s
    → Scoped.find proposer name s.proposals ≡ none
    → IsCoherent (record s {
      proposals = Scoped.set proposer name prop s.proposals;
      approvals = Scoped.set proposer name row s.approvals;
    })
added proposer name s prop row v fresh = record {
  paired = λ p n. ground (
    arith,
    v.paired p n,
    Scoped.find-set proposer name p n prop s.proposals,
    Scoped.find-set proposer name p n row s.approvals,
  );
  single = λ p n.
      ground (arith, v.paired p n, v.single p n, Scoped.find-set proposer name p n row s.approvals);
}

module _ (proposer name : ℕ) (s : Msig) (v : IsCoherent s) where
  removed_new :
      is_some (Scoped.find proposer name s.approvals) ≡ true
      → IsCoherent (record s {
        proposals = Scoped.erase proposer name s.proposals;
        approvals = Scoped.erase proposer name s.approvals;
      })
  removed_new there = record {
    paired = λ p n. ground (
      arith,
      v.paired p n,
      v.single p n,
      Scoped.find-erase proposer name p n s.proposals,
      Scoped.find-erase proposer name p n s.approvals,
    );
    single = λ p n. ground (arith, v.single p n, Scoped.find-erase proposer name p n s.approvals);
  }

  removed_old :
      Scoped.find proposer name s.approvals ≡ none
      → IsCoherent (record s {
        proposals = Scoped.erase proposer name s.proposals;
        old_approvals = Scoped.erase proposer name s.old_approvals;
      })
  removed_old absent = record {
    paired = λ p n. ground (
      arith,
      v.paired p n,
      Scoped.find-erase proposer name p n s.proposals,
      Scoped.find-erase proposer name p n s.old_approvals,
    );
    single =
        λ p n. ground (arith, v.single p n, Scoped.find-erase proposer name p n s.old_approvals);
  }

module _ (lib : TrxLib) where
  -- Every action that succeeds keeps the tables coherent: a name has a proposal exactly when it has
  -- a row of approvals in one of the two formats, and never one in both.
  pub apply-IsCoherent :
      (c : Chain) (op : Op) (s t : Msig) → IsCoherent s → apply lib c op s ≡ ok t → IsCoherent t
  unfolding apply propose approve unapprove cancel exec invalidate get_approvals_and_adjust_table
      adjust_new adjust_old
  apply-IsCoherent c (proposes proposer name requested trx) s t v h =
      let prop : Proposal = record { packed_transaction = trx; earliest_exec_time = some none } in
      let row : ApprovalsInfo = record {
        requested_approvals = map (λ l. record { level = l; time = 0 }) requested;
        provided_approvals = [];
      } in
      elim (Result-cases (lib.header trx)) [
        | inr (_, e) ↦ absurd (ground arith)
        | inl (header, e) ↦ elim (Result-cases (lib.context_free_actions trx)) [
          | inr (_, f) ↦ absurd (ground arith)
          | inl (cfa, f) ↦
              subst IsCoherent (ground arith) (added proposer name s prop row v (ground arith))
        ]
      ]
  apply-IsCoherent c (approves proposer name level hash) s t v h =
      elim (Option-cases (Scoped.find proposer name s.proposals)) [
        | inl missing ↦ absurd (ground arith)
        | inr (prop, found) ↦ elim (Result-cases (provide lib c.now proposer name level s)) [
          | inr (_, e) ↦ absurd (ground arith)
          | inl (mid, e) ↦ elim (Result-cases (lib.header prop.packed_transaction)) [
            | inr (_, f) ↦ absurd (ground arith)
            | inl (header, f) ↦
                let (a, same) = provide-Alike lib c.now proposer name level s mid e in
                let clock : start_clock lib c proposer name prop header mid ≡ ok t = ground arith in
                let b =
                  start_clock-Alike lib c proposer name prop header mid t (rw same found) clock in
                Alike-IsCoherent (Alike-trans a b) v
          ]
        ]
      ]
  apply-IsCoherent c (unapproves proposer name level) s t v h =
      elim (Result-cases (take_back lib c.now proposer name level s)) [
        | inr (_, e) ↦ absurd (ground arith)
        | inl (mid, e) ↦ elim (Option-cases (Scoped.find proposer name mid.proposals)) [
          | inl missing ↦ absurd (ground arith)
          | inr (prop, found) ↦
              let (a, same) = take_back-Alike lib c.now proposer name level s mid e in
              let clock : reset_clock lib proposer name prop mid ≡ ok t = ground arith in
              Alike-IsCoherent
                (Alike-trans a (reset_clock-Alike lib proposer name prop mid t found clock)) v
        ]
      ]
  apply-IsCoherent c (cancels proposer name canceler) s t v h =
      elim (Option-cases (Scoped.find proposer name s.proposals)) [
        | inl missing ↦ absurd (ground arith)
        | inr (prop, found) ↦ elim (Option-cases (Scoped.find proposer name s.approvals)) [
          | inr (row, e) ↦
              subst IsCoherent (ground arith) (removed_new proposer name s v (rw e refl))
          | inl e ↦ subst IsCoherent (ground arith) (removed_old proposer name s v e)
        ]
      ]
  apply-IsCoherent c (execs proposer name executer) s t v h =
      elim (Option-cases (Scoped.find proposer name s.approvals)) [
        | inr (row, e) ↦ subst IsCoherent (ground arith) (removed_new proposer name s v (rw e refl))
        | inl e ↦ subst IsCoherent (ground arith) (removed_old proposer name s v e)
      ]
  apply-IsCoherent c (invalidates account) s t v h =
      let t_is : t ≡ record s { invalidations = Table.set account c.now s.invalidations } =
        ground arith in
      rw t_is (record { paired = v.paired; single = v.single })

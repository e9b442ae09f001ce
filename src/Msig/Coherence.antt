-- ===== src/Msig/Coherence.antt =====
-- The tables of eosio.msig agree: every proposal has its approvals in one of the two formats.
pub mod Steps
use wax_system_contracts.Prelude.{
  ℕ, ◌+◌, ◌++◌, ◌≡◌, refl, subst, Bool, true, false, ◌&&◌, ◌||◌, Option, none, some, Result, ok,
  err, ◌==◌, arith, if◌then◌else◌, Option-cases, Bool-cases, Result-cases, inl, inr, ◌∙◌, List, [],
  ◌∷◌, is_some, after, ◌⊎◌, String,
}
use wax_system_contracts.Prelude.Scoped
use wax_system_contracts.Asset.{Chain}
use wax_system_contracts.Msig.{
  PermissionLevel, Msig, Bytes, Approval, ApprovalsInfo, OldApprovalsInfo, TransactionHeader,
  TrxLib, Proposal, get_approvals_and_adjust_table, leave, erase_row, adjust_new, adjust_old,
  erase_level, level_of, itself,
}
use wax_system_contracts.Msig.Actions.{
  propose, approve, unapprove, cancel, exec, invalidate, provide, take_back, start_clock,
  reset_clock, seconds,
}

abbrev has_proposal : ℕ → ℕ → Msig → Bool
has_proposal p n s = is_some (Scoped.find p n s.proposals)

abbrev has_new : ℕ → ℕ → Msig → Bool
has_new p n s = is_some (Scoped.find p n s.approvals)

abbrev has_old : ℕ → ℕ → Msig → Bool
has_old p n s = is_some (Scoped.find p n s.old_approvals)

-- A name has a proposal exactly when it has a row of approvals, and then it has one such row.
pub record IsCoherent (s : Msig) : Type 0 where
  pub paired :
      (p n : ℕ)
      → is_some (Scoped.find p n s.proposals)
        ≡ (is_some (Scoped.find p n s.approvals) || is_some (Scoped.find p n s.old_approvals))
  pub single :
      (p n : ℕ)
      → (is_some (Scoped.find p n s.approvals) && is_some (Scoped.find p n s.old_approvals)) ≡ false

-- Two states with rows at the same names.
record Alike (s t : Msig) : Type 0 where
  proposals : (p n : ℕ) → has_proposal p n t ≡ has_proposal p n s
  new : (p n : ℕ) → has_new p n t ≡ has_new p n s
  old : (p n : ℕ) → has_old p n t ≡ has_old p n s

Alike-IsCoherent : {s t : Msig} → Alike s t → IsCoherent s → IsCoherent t
Alike-IsCoherent a v = record {
  paired = λ p n. ground (arith, a.proposals p n, a.new p n, a.old p n, v.paired p n);
  single = λ p n. ground (arith, a.new p n, a.old p n, v.single p n);
}

Alike-trans : {s t u : Msig} → Alike s t → Alike t u → Alike s u
Alike-trans a b = record {
  proposals = λ p n. b.proposals p n ∙ a.proposals p n;
  new = λ p n. b.new p n ∙ a.new p n;
  old = λ p n. b.old p n ∙ a.old p n;
}

Alike-refl : (s : Msig) → Alike s s
Alike-refl s = record { proposals = λ p n. refl; new = λ p n. refl; old = λ p n. refl }

-- A row is written where there is one.
is_some-set {ℓ} :
    {V : Type ℓ} (s k : ℕ) (old v : V) (t : Scoped.Scoped V)
    → Scoped.find s k t ≡ some old
    → (p n : ℕ) → is_some (Scoped.find p n (Scoped.set s k v t)) ≡ is_some (Scoped.find p n t)
is_some-set s k old v t found p n = ground (arith, Scoped.find-set s k p n v t)

module _ (proposer name : ℕ) (s : Msig) where
  rewritten_new :
      (old new : ApprovalsInfo)
      → Scoped.find proposer name s.approvals ≡ some old
      → Alike s (record s { approvals = Scoped.set proposer name new s.approvals })
  rewritten_new old new found = record {
    proposals = λ p n. refl;
    new = is_some-set proposer name old new s.approvals found;
    old = λ p n. refl;
  }

  rewritten_old :
      (old new : OldApprovalsInfo)
      → Scoped.find proposer name s.old_approvals ≡ some old
      → Alike s (record s { old_approvals = Scoped.set proposer name new s.old_approvals })
  rewritten_old old new found = record {
    proposals = λ p n. refl;
    new = λ p n. refl;
    old = is_some-set proposer name old new s.old_approvals found;
  }

  rewritten_proposal :
      (old new : Proposal)
      → Scoped.find proposer name s.proposals ≡ some old
      → Alike s (record s { proposals = Scoped.set proposer name new s.proposals })
  rewritten_proposal old new found = record {
    proposals = is_some-set proposer name old new s.proposals found;
    new = λ p n. refl;
    old = λ p n. refl;
  }

module _ (lib : TrxLib) where
  provide-Alike :
      (now proposer name : ℕ) (level : PermissionLevel) (s t : Msig)
      → provide lib now proposer name level s ≡ ok t
      → Alike s t × (t.proposals ≡ s.proposals)
  unfolding provide
  provide-Alike now proposer name level s t h =
      elim (Option-cases (Scoped.find proposer name s.approvals)) [
        | inr (row, e) ↦
            let new : ApprovalsInfo = record {
              provided_approvals =
                  row.provided_approvals ++ record { level = level; time = now } ∷ [];
              requested_approvals = erase_level level_of level row.requested_approvals;
            } in
            (subst (Alike s) (ground arith) (rewritten_new proposer name s row new e), ground arith)
        | inl e ↦ elim (Option-cases (Scoped.find proposer name s.old_approvals)) [
          | inr (row, f) ↦
              let new : OldApprovalsInfo = record {
                provided_approvals = row.provided_approvals ++ level ∷ [];
                requested_approvals = erase_level itself level row.requested_approvals;
              } in
              (
                subst (Alike s) (ground arith) (rewritten_old proposer name s row new f),
                ground arith,
              )
          | inl f ↦ absurd (ground arith)
        ]
      ]

  take_back-Alike :
      (now proposer name : ℕ) (level : PermissionLevel) (s t : Msig)
      → take_back lib now proposer name level s ≡ ok t
      → Alike s t × (t.proposals ≡ s.proposals)
  unfolding take_back
  take_back-Alike now proposer name level s t h =
      elim (Option-cases (Scoped.find proposer name s.approvals)) [
        | inr (row, e) ↦
            let new : ApprovalsInfo = record {
              requested_approvals =
                  row.requested_approvals ++ record { level = level; time = now } ∷ [];
              provided_approvals = erase_level level_of level row.provided_approvals;
            } in
            (subst (Alike s) (ground arith) (rewritten_new proposer name s row new e), ground arith)
        | inl e ↦ elim (Option-cases (Scoped.find proposer name s.old_approvals)) [
          | inr (row, f) ↦
              let new : OldApprovalsInfo = record {
                requested_approvals = row.requested_approvals ++ level ∷ [];
                provided_approvals = erase_level itself level row.provided_approvals;
              } in
              (
                subst (Alike s) (ground arith) (rewritten_old proposer name s row new f),
                ground arith,
              )
          | inl f ↦ absurd (ground arith)
        ]
      ]

  start_clock-Alike :
      (c : Chain) (proposer name : ℕ) (prop : Proposal) (header : TransactionHeader) (s t : Msig)
      → Scoped.find proposer name s.proposals ≡ some prop
      → start_clock lib c proposer name prop header s ≡ ok t
      → Alike s t
  unfolding start_clock
  start_clock-Alike c proposer name prop header s t found h =
      let due = c.now + seconds header.delay_sec in
      let new : Proposal = record prop { earliest_exec_time = some (some due) } in
      ground (
        arith,
        Alike-refl s,
        rewritten_proposal proposer name s prop new found,
        Result-cases (get_approvals_and_adjust_table leave proposer name s),
      )

  reset_clock-Alike :
      (proposer name : ℕ) (prop : Proposal) (s t : Msig)
      → Scoped.find proposer name s.proposals ≡ some prop
      → reset_clock lib proposer name prop s ≡ ok t
      → Alike s t
  unfolding reset_clock
  reset_clock-Alike proposer name prop s t found h =
      let new : Proposal = record prop { earliest_exec_time = some none } in
      ground (
        arith,
        Alike-refl s,
        rewritten_proposal proposer name s prop new found,
        Result-cases (get_approvals_and_adjust_table leave proposer name s),
      )

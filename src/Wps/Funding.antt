-- ===== src/Wps/Funding.antt =====
-- The payment of an approved worker proposal: what one claim does, and the sum of all claims.
use wax_system_contracts.Prelude.{
  ℕ, ◌+◌, ◌*◌, ◌/◌, ◌^◌, ◌≤◌, ◌<◌, ◌≡◌, sym, subst, zero, suc, true, some, ok, err, arith,
  if◌then◌else◌, inl, inr, Option-cases, Result-cases, List, [], ◌∷◌, leb, String,
}
use wax_system_contracts.Prelude.Int.{ℤ, pos, ◌+ℤ◌, ◌≤ℤ◌, quot_ℤ, int_laws, parts_of_eq}
use wax_system_contracts.Prelude.Table
use wax_system_contracts.Asset.{AssetLib, AssetLaws, Chain}
use wax_system_contracts.Wps.{VoteLib, Payment, Proposal, Wps, approved, completed, wrap32}
use wax_system_contracts.Wps.Proposals.{claimfunds, claimed, start_funding_round}

module _ {D : Type 0} (lib : AssetLib) (laws : AssetLaws lib) (votes : VoteLib D) where
  -- A claim that goes through was made by the proposer, for an approved proposal with a payment
  -- left, after the end of the current interval. It pays the share of one iteration from the
  -- savings account, and completes the proposal exactly when it was the last.
  pub claimfunds_sound :
      (c : Chain) (account : ℕ) (s t : Wps D) (payment : Payment)
      → claimfunds lib votes c account s ≡ ok (payment, t)
      → (p : Proposal D) × (Table.find account s.proposals ≡ some p)
        × (c.has_auth account ≡ true)
        × (p.status ≡ approved)
        × (p.iteration_of_funding ≤ p.draft.total_iterations)
        × (start_funding_round lib votes p < c.now_sec)
        × (lib.divide p.draft.funding_goal p.draft.total_iterations ≡ ok payment.quantity)
        × (payment.from ≡ votes.saving)
        × (payment.to ≡ account)
        × (t.proposals
            ≡ Table.set account
                (record p {
                  iteration_of_funding = wrap32 (p.iteration_of_funding + 1);
                  status =
                      if leb p.draft.total_iterations p.iteration_of_funding
                      then completed
                      else approved;
                })
                s.proposals)
  unfolding claimfunds claimed
  claimfunds_sound c account s t payment h = elim (Option-cases (Table.find account s.proposals)) [
    | inl missing ↦ absurd (ground arith)
    | inr (p, found) ↦
        elim (Result-cases (lib.divide p.draft.funding_goal p.draft.total_iterations)) [
          | inr (_, e) ↦ absurd (ground arith)
          | inl (share, e) ↦ (
            p,
            found,
            ground arith,
            ground arith,
            ground arith,
            ground arith,
            ground arith,
            ground arith,
            ground arith,
            ground arith,
          )
        ]
  ]

  -- The payments of a sequence of calls; a call that fails pays nothing.
  unfoldable pub claim_all : List Chain → ℕ → Wps D → List Payment
  claim_all [] account s = []
  claim_all (c ∷ cs) account s = elim (claimfunds lib votes c account s) [
    | ok (payment, t) ↦ payment ∷ claim_all cs account t
    | err e ↦ claim_all cs account s
  ]

unfoldable pub paid : List Payment → ℤ
paid [] = pos 0
paid (p ∷ ps) = p.quantity.amount +ℤ paid ps

share_mul : (m share : ℕ) → suc m * share ≡ share + m * share
share_mul m share = grind arith

share_total : (g n : ℕ) → n * (g / n) ≤ g
share_total g n = grind arith

module _ {D : Type 0} (lib : AssetLib) (laws : AssetLaws lib) (votes : VoteLib D) where
  claim_all-ok :
      (c : Chain) (cs : List Chain) (account : ℕ) (s t : Wps D) (payment : Payment)
      → claimfunds lib votes c account s ≡ ok (payment, t)
      → claim_all lib laws votes (c ∷ cs) account s
        ≡ payment ∷ claim_all lib laws votes cs account t
  unfolding claim_all
  claim_all-ok c cs account s t payment e = ground arith

  claim_all-err :
      (c : Chain) (cs : List Chain) (account : ℕ) (s : Wps D) (message : String)
      → claimfunds lib votes c account s ≡ err message
      → claim_all lib laws votes (c ∷ cs) account s ≡ claim_all lib laws votes cs account s
  unfolding claim_all
  claim_all-err c cs account s message e = ground arith

  -- One claim pays a share, and leaves one iteration less.
  one_share :
      (c : Chain) (account g : ℕ) (s t : Wps D) (p : Proposal D) (payment : Payment)
      → Table.find account s.proposals ≡ some p
      → p.draft.funding_goal.amount ≡ pos g
      → 0 < p.draft.total_iterations
      → claimfunds lib votes c account s ≡ ok (payment, t)
      → (Table.find account t.proposals ≡ some (claimed lib votes p))
        × (p.iteration_of_funding ≤ p.draft.total_iterations)
        × (payment.quantity.amount ≡ pos (g / p.draft.total_iterations))
  unfolding claimed quot_ℤ
  one_share c account g s t p payment found goal positive h =
      let (p', found', _, approved_p, more, _, share, _, _, t_is) =
        claimfunds_sound lib laws votes c account s t payment h in
      let same : p' ≡ p = ground arith in
      let t_same : t.proposals ≡ Table.set account (claimed lib votes p) s.proposals =
        ground arith in
      (
        rw t_same
            (ground (arith, Table.find-set account account (claimed lib votes p) s.proposals)),
        ground arith,
        ground (arith, laws.divide_exact p.draft.funding_goal p.draft.total_iterations),
      )

  -- With `m` iterations left at most `m` shares are paid.
  paid_shares :
      (cs : List Chain) (account m g : ℕ) (s : Wps D) (p : Proposal D)
      → Table.find account s.proposals ≡ some p
      → p.draft.funding_goal.amount ≡ pos g
      → 0 < p.draft.total_iterations
      → p.draft.total_iterations + 1 < 2 ^ 32
      → p.draft.total_iterations + 1 ≤ m + p.iteration_of_funding
      → paid (claim_all lib laws votes cs account s) ≤ℤ pos (m * (g / p.draft.total_iterations))
  unfolding paid claim_all claimed
  paid_shares [] account m g s p found goal some_left small left = omega arith
  paid_shares (c ∷ cs) account zero g s p found goal positive small left =
      elim (Result-cases (claimfunds lib votes c account s)) [
        | inr (message, e) ↦
            subst (λ ps. paid ps ≤ℤ pos (0 * (g / p.draft.total_iterations)))
              (sym (claim_all-err c cs account s message e))
              (paid_shares cs account 0 g s p found goal positive small left)
        | inl ((payment, t), e) ↦
            absurd
              (omega (arith, (one_share c account g s t p payment found goal positive e).1, left))
      ]
  paid_shares (c ∷ cs) account (suc m) g s p found goal positive small left =
      elim (Result-cases (claimfunds lib votes c account s)) [
        | inr (message, e) ↦
            subst (λ ps. paid ps ≤ℤ pos (suc m * (g / p.draft.total_iterations)))
              (sym (claim_all-err c cs account s message e))
              (paid_shares cs account (suc m) g s p found goal positive small left)
        | inl ((payment, t), e) ↦
            let (found', more, share) = one_share c account g s t p payment found goal positive e in
            let rest =
              paid_shares cs account m g t (claimed lib votes p) found' goal positive small
                (omega (arith, more, left, small)) in
            subst (λ ps. paid ps ≤ℤ pos (suc m * (g / p.draft.total_iterations)))
              (sym (claim_all-ok c cs account s t payment e))
              (omega
                (int_laws, parts_of_eq share, rest, share_mul m (g / p.draft.total_iterations)))
      ]

  -- A funded proposal whose proposer has claimed nothing is paid at most its funding goal, however
  -- often and whenever its proposer claims.
  pub payouts_bounded :
      (cs : List Chain) (account g : ℕ) (s : Wps D) (p : Proposal D)
      → Table.find account s.proposals ≡ some p
      → p.draft.funding_goal.amount ≡ pos g
      → 0 < p.draft.total_iterations
      → p.draft.total_iterations < 100
      → p.iteration_of_funding ≡ 1
      → paid (claim_all lib laws votes cs account s) ≤ℤ pos g
  payouts_bounded cs account g s p found goal positive small first = omega (
    int_laws,
    paid_shares cs account p.draft.total_iterations g s p found goal positive (omega arith)
        (omega arith),
    share_total g p.draft.total_iterations,
  )

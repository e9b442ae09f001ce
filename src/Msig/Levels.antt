-- ===== src/Msig/Levels.antt =====
-- `approve` and `unapprove` move a permission level between the two lists of a proposal.
use mathlib.Core.List.{perm_middle, append-nil, append_assoc}
use mathlib.Core.List.Perm
use wax_system_contracts.Prelude.{
  ℕ, ◌≡◌, refl, ◌∙◌, subst, true, Option, some, ok, arith, Option-cases, Result-cases, inl, inr,
  List, [], ◌∷◌, ◌++◌, Perm,
}
use wax_system_contracts.Prelude.Scoped
use wax_system_contracts.Asset.{Chain}
use wax_system_contracts.Msig.{
  PermissionLevel, Msig, TransactionHeader, TrxLib, Proposal, has_level, erase_level, level_of,
  itself, get_approvals_and_adjust_table, leave,
}
use wax_system_contracts.Msig.Actions.{
  approve, unapprove, provide, take_back, start_clock, reset_clock,
}
use wax_system_contracts.Msig.Rows.{
  levels_of, dated_of, on_dated, erased_perm, provided_row, taken_row,
}

moved :
    (l : PermissionLevel) (xs ys zs : List PermissionLevel)
    → Perm xs (l ∷ zs)
    → Perm (zs ++ (ys ++ l ∷ [])) (xs ++ ys)
moved l xs ys zs p =
    Perm.trans
      (Perm.append (Perm.refl zs)
        (subst (λ e. Perm (ys ++ l ∷ []) (l ∷ e)) (append-nil ys) (perm_middle ys [])))
      (Perm.trans (perm_middle zs ys) (Perm.append (Perm.symm p) (Perm.refl ys)))

module _ (lib : TrxLib) where
  start_clock-rows :
      (c : Chain) (proposer name : ℕ) (prop : Proposal) (header : TransactionHeader) (s t : Msig)
      → start_clock lib c proposer name prop header s ≡ ok t
      → (t.approvals ≡ s.approvals) × (t.old_approvals ≡ s.old_approvals)
  unfolding start_clock
  start_clock-rows c proposer name prop header s t h =
      elim (Result-cases (get_approvals_and_adjust_table leave proposer name s)) [
        | inl (_, e) ↦ ground arith
        | inr (_, e) ↦ ground arith
      ]

  reset_clock-rows :
      (proposer name : ℕ) (prop : Proposal) (s t : Msig)
      → reset_clock lib proposer name prop s ≡ ok t
      → (t.approvals ≡ s.approvals) × (t.old_approvals ≡ s.old_approvals)
  unfolding reset_clock
  reset_clock-rows proposer name prop s t h =
      elim (Result-cases (get_approvals_and_adjust_table leave proposer name s)) [
        | inl (_, e) ↦ ground arith
        | inr (_, e) ↦ ground arith
      ]

  same_rows :
      (proposer name : ℕ) (s t : Msig)
      → (t.approvals ≡ s.approvals) × (t.old_approvals ≡ s.old_approvals)
      → (levels_of proposer name t ≡ levels_of proposer name s)
        × (dated_of proposer name t ≡ dated_of proposer name s)
  same_rows proposer name s t (new, old) = rw (new, old) (refl, refl)

  -- An approval has the authority of its level, which the proposal requested, and moves it from the
  -- requested levels to the provided ones: together they stay the same, up to their order. This holds
  -- in both formats of the approvals; the new one also dates the approval.
  pub approve_levels :
      (c : Chain) (proposer name : ℕ) (level : PermissionLevel) (hash : Option ℕ) (s t : Msig)
      → approve lib c proposer name level hash s ≡ ok t
      → (requested : List PermissionLevel) × (provided : List PermissionLevel) × (requested' : List
          PermissionLevel)
        × (provided' : List PermissionLevel) × (c.has_permission level.actor level.permission
            ≡ true)
        × (levels_of proposer name s ≡ some (requested, provided))
        × (levels_of proposer name t ≡ some (requested', provided'))
        × (has_level itself level requested ≡ true)
        × (provided' ≡ provided ++ level ∷ [])
        × Perm (requested' ++ provided') (requested ++ provided)
        × (dated_of proposer name t
            ≡ on_dated
                (λ xs. xs ++ record { level = level; time = c.now } ∷ [])
                (dated_of proposer name s))
  unfolding approve
  approve_levels c proposer name level hash s t h =
      elim (Option-cases (Scoped.find proposer name s.proposals)) [
        | inl missing ↦ absurd (ground arith)
        | inr (prop, there) ↦ elim (Result-cases (provide lib c.now proposer name level s)) [
          | inr (_, e) ↦ absurd (ground arith)
          | inl (mid, e) ↦ elim (Result-cases (lib.header prop.packed_transaction)) [
            | inr (_, e2) ↦ absurd (ground arith)
            | inl (header, e2) ↦
                let (req, prov, before, has, after, dated) =
                  provided_row lib c.now proposer name level s mid e in
                let clock : start_clock lib c proposer name prop header mid ≡ ok t = ground arith in
                let same =
                  same_rows proposer name mid t
                    (start_clock-rows c proposer name prop header mid t clock) in
                (
                  req,
                  prov,
                  erase_level itself level req,
                  prov ++ level ∷ [],
                  ground arith,
                  before,
                  same.0 ∙ after,
                  has,
                  refl,
                  moved level req prov (erase_level itself level req) (erased_perm level req has),
                  same.1 ∙ dated,
                )
          ]
        ]
      ]

  -- Taking an approval back has the authority of its level, which was provided, and moves it from the
  -- provided levels to the requested ones: together they stay the same, up to their order. This holds
  -- in both formats of the approvals; in the new one the other approvals keep their times.
  pub unapprove_levels :
      (c : Chain) (proposer name : ℕ) (level : PermissionLevel) (s t : Msig)
      → unapprove lib c proposer name level s ≡ ok t
      → (requested : List PermissionLevel) × (provided : List PermissionLevel) × (requested' : List
          PermissionLevel)
        × (provided' : List PermissionLevel) × (c.has_permission level.actor level.permission
            ≡ true)
        × (levels_of proposer name s ≡ some (requested, provided))
        × (levels_of proposer name t ≡ some (requested', provided'))
        × (has_level itself level provided ≡ true)
        × (requested' ≡ requested ++ level ∷ [])
        × (provided' ≡ erase_level itself level provided)
        × Perm (requested' ++ provided') (requested ++ provided)
        × (dated_of proposer name t
            ≡ on_dated (erase_level level_of level) (dated_of proposer name s))
  unfolding unapprove
  unapprove_levels c proposer name level s t h =
      elim (Result-cases (take_back lib c.now proposer name level s)) [
        | inr (_, e) ↦ absurd (ground arith)
        | inl (mid, e) ↦ elim (Option-cases (Scoped.find proposer name mid.proposals)) [
          | inl missing ↦ absurd (ground arith)
          | inr (prop, there) ↦
              let (req, prov, before, has, after, dated) =
                taken_row lib c.now proposer name level s mid e in
              let clock : reset_clock lib proposer name prop mid ≡ ok t = ground arith in
              let same =
                same_rows proposer name mid t (reset_clock-rows proposer name prop mid t clock) in
              (
                req,
                prov,
                req ++ level ∷ [],
                erase_level itself level prov,
                ground arith,
                before,
                same.0 ∙ after,
                has,
                refl,
                refl,
                rw append_assoc
                    (Perm.append (Perm.refl req) (Perm.symm (erased_perm level prov has))),
                same.1 ∙ dated,
              )
        ]
      ]

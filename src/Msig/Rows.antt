-- ===== src/Msig/Rows.antt =====
-- The rows of `approvals` and of `old_approvals` as the lists of levels that they stand for, and what
-- the first parts of `approve` and of `unapprove` do to them.
use mathlib.Core.List.{map-append}
use mathlib.Core.List.Perm
use wax_system_contracts.Prelude.{
  ℕ, ◌≡◌, refl, ap, subst, true, none, Option, some, ok, arith, Option-cases, Bool-cases, inl, inr,
  List, [], ◌∷◌, ◌++◌, map, Perm,
}
use wax_system_contracts.Prelude.Scoped
use wax_system_contracts.Msig.{
  PermissionLevel, same_level, Msig, Approval, ApprovalsInfo, TrxLib, has_level, erase_level,
  level_of, itself, OldApprovalsInfo,
}
use wax_system_contracts.Msig.Actions.{provide, take_back}

erase_level-perm {ℓ} :
    {A : Type ℓ} (f : A → PermissionLevel) (l : PermissionLevel) (xs : List A)
    → has_level f l xs ≡ true
    → Perm (map f xs) (l ∷ map f (erase_level f l xs))
unfolding has_level erase_level
erase_level-perm f l [] h = cc
erase_level-perm f l (x ∷ xs) h = elim (Bool-cases (same_level (f x) l)) [
  | inl hit ↦ let same : f x ≡ l = ground arith in rw (hit, same) (Perm.refl (l ∷ map f xs))
  | inr miss ↦
      let rest = erase_level-perm f l xs (rw miss at h) in
      rw miss (Perm.trans (Perm.cons (f x) rest) (Perm.swap l (f x) _))
]

has_level-map :
    (l : PermissionLevel) (xs : List Approval)
    → has_level itself l (map level_of xs) ≡ has_level level_of l xs
unfolding has_level
has_level-map l [] = refl
has_level-map l (x ∷ xs) = ground (arith, has_level-map l xs)

erase_level-map :
    (l : PermissionLevel) (xs : List Approval)
    → map level_of (erase_level level_of l xs) ≡ erase_level itself l (map level_of xs)
unfolding erase_level
erase_level-map l [] = refl
erase_level-map l (x ∷ xs) = ground (arith, erase_level-map l xs)

map-itself : (xs : List PermissionLevel) → map itself xs ≡ xs
map-itself [] = refl
map-itself (x ∷ xs) = ap (◌∷◌ x) (map-itself xs)

pub erased_perm :
    (l : PermissionLevel) (xs : List PermissionLevel)
    → has_level itself l xs ≡ true
    → Perm xs (l ∷ erase_level itself l xs)
erased_perm l xs h =
    subst (λ e. Perm xs (l ∷ e)) (map-itself (erase_level itself l xs))
      (subst (λ e. Perm e (l ∷ map itself (erase_level itself l xs))) (map-itself xs)
        (erase_level-perm itself l xs h))

-- The requested and the provided levels of a proposal, in the format that its row has.
abbrev pub levels_of : ℕ → ℕ → Msig → Option (List PermissionLevel × List PermissionLevel)
levels_of proposer name s = elim (Scoped.find proposer name s.approvals) [
  | some row ↦ some (map level_of row.requested_approvals, map level_of row.provided_approvals)
  | none ↦ elim (Scoped.find proposer name s.old_approvals) [
    | some row ↦ some (row.requested_approvals, row.provided_approvals)
    | none ↦ none
  ]
]

-- The approvals with their times, which only the new format has.
abbrev pub dated_of : ℕ → ℕ → Msig → Option (List Approval)
dated_of proposer name s = elim (Scoped.find proposer name s.approvals) [
  | some row ↦ some row.provided_approvals
  | none ↦ none
]

-- What is done to the approvals of the new format, where the proposal has it.
abbrev pub on_dated :
    (List Approval → List Approval) → Option (List Approval) → Option (List Approval)
on_dated f none = none
on_dated f (some xs) = some (f xs)

module _ (lib : TrxLib) where
  pub provided_row :
      (now proposer name : ℕ) (level : PermissionLevel) (s t : Msig)
      → provide lib now proposer name level s ≡ ok t
      → (requested : List PermissionLevel) × (provided : List PermissionLevel) × (levels_of proposer
            name s
          ≡ some (requested, provided))
        × (has_level itself level requested ≡ true)
        × (levels_of proposer name t
            ≡ some (erase_level itself level requested, provided ++ level ∷ []))
        × (dated_of proposer name t
            ≡ on_dated
                (λ xs. xs ++ record { level = level; time = now } ∷ [])
                (dated_of proposer name s))
  unfolding provide
  provided_row now proposer name level s t h =
      elim (Option-cases (Scoped.find proposer name s.approvals)) [
        | inr (row, found) ↦
            let dated : Approval = record { level = level; time = now } in
            let row' : ApprovalsInfo = record {
              provided_approvals = row.provided_approvals ++ dated ∷ [];
              requested_approvals = erase_level level_of level row.requested_approvals;
            } in
            let t_is : t ≡ record s { approvals = Scoped.set proposer name row' s.approvals } =
              ground arith in
            let there : Scoped.find proposer name t.approvals ≡ some row' =
              rw t_is
                (ground (arith, Scoped.find-set proposer name proposer name row' s.approvals)) in
            (
              map level_of row.requested_approvals,
              map level_of row.provided_approvals,
              ground arith,
              ground (arith, has_level-map level row.requested_approvals),
              ground (
                arith,
                there,
                erase_level-map level row.requested_approvals,
                map-append level_of row.provided_approvals (dated ∷ []),
              ),
              ground (arith, there),
            )
        | inl absent ↦ elim (Option-cases (Scoped.find proposer name s.old_approvals)) [
          | inl missing ↦ absurd (ground arith)
          | inr (row, found) ↦
              let row' : OldApprovalsInfo = record {
                provided_approvals = row.provided_approvals ++ level ∷ [];
                requested_approvals = erase_level itself level row.requested_approvals;
              } in
              let t_is : t
                  ≡ record s { old_approvals = Scoped.set proposer name row' s.old_approvals } =
                ground arith in
              let there : Scoped.find proposer name t.old_approvals ≡ some row' = rw t_is (
                ground (arith, Scoped.find-set proposer name proposer name row' s.old_approvals)) in
              let still : Scoped.find proposer name t.approvals ≡ none = rw t_is absent in
              (
                row.requested_approvals,
                row.provided_approvals,
                ground arith,
                ground arith,
                ground (arith, there, still),
                ground (arith, still),
              )
        ]
      ]

  pub taken_row :
      (now proposer name : ℕ) (level : PermissionLevel) (s t : Msig)
      → take_back lib now proposer name level s ≡ ok t
      → (requested : List PermissionLevel) × (provided : List PermissionLevel) × (levels_of proposer
            name s
          ≡ some (requested, provided))
        × (has_level itself level provided ≡ true)
        × (levels_of proposer name t
            ≡ some (requested ++ level ∷ [], erase_level itself level provided))
        × (dated_of proposer name t
            ≡ on_dated (erase_level level_of level) (dated_of proposer name s))
  unfolding take_back
  taken_row now proposer name level s t h =
      elim (Option-cases (Scoped.find proposer name s.approvals)) [
        | inr (row, found) ↦
            let back : Approval = record { level = level; time = now } in
            let row' : ApprovalsInfo = record {
              requested_approvals = row.requested_approvals ++ back ∷ [];
              provided_approvals = erase_level level_of level row.provided_approvals;
            } in
            let t_is : t ≡ record s { approvals = Scoped.set proposer name row' s.approvals } =
              ground arith in
            let there : Scoped.find proposer name t.approvals ≡ some row' =
              rw t_is
                (ground (arith, Scoped.find-set proposer name proposer name row' s.approvals)) in
            (
              map level_of row.requested_approvals,
              map level_of row.provided_approvals,
              ground arith,
              ground (arith, has_level-map level row.provided_approvals),
              ground (
                arith,
                there,
                erase_level-map level row.provided_approvals,
                map-append level_of row.requested_approvals (back ∷ []),
              ),
              ground (arith, there),
            )
        | inl absent ↦ elim (Option-cases (Scoped.find proposer name s.old_approvals)) [
          | inl missing ↦ absurd (ground arith)
          | inr (row, found) ↦
              let row' : OldApprovalsInfo = record {
                requested_approvals = row.requested_approvals ++ level ∷ [];
                provided_approvals = erase_level itself level row.provided_approvals;
              } in
              let t_is : t
                  ≡ record s { old_approvals = Scoped.set proposer name row' s.old_approvals } =
                ground arith in
              let there : Scoped.find proposer name t.old_approvals ≡ some row' = rw t_is (
                ground (arith, Scoped.find-set proposer name proposer name row' s.old_approvals)) in
              let still : Scoped.find proposer name t.approvals ≡ none = rw t_is absent in
              (
                row.requested_approvals,
                row.provided_approvals,
                ground arith,
                ground arith,
                ground (arith, there, still),
                ground (arith, still),
              )
        ]
      ]

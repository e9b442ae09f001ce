-- ===== src/Wps/Lifecycle.antt =====
-- The life of a worker proposal: the steps that any action can make with its status.
pub mod Vote
pub mod Steps
use wax_system_contracts.Prelude.{
  ℕ, ◌≡◌, refl, subst, sym, Bool, true, false, Option, none, some, arith, ◌==◌, if◌then◌else◌, inl,
  inr, Bool-cases,
}
use wax_system_contracts.Prelude.Table
use wax_system_contracts.Wps.{
  Proposal, Wps, Status, pending, rejected, on_vote, finished_voting, approved, completed,
}

-- The status of a proposer's proposal; `none` where it has no proposal.
abbrev pub status_in : {D : Type 0} → Option (Proposal D) → Option Status
status_in none = none
status_in (some p) = some p.status

-- From what the status was to what it is after one action.
pub data Moves (a b : Option Status) : Type 0 where
  keeps : b ≡ a → Moves a b
  registers : a ≡ none → b ≡ some pending → Moves a b
  goes_to_vote : a ≡ some pending → b ≡ some on_vote → Moves a b
  wins_vote : a ≡ some on_vote → b ≡ some finished_voting → Moves a b
  is_approved : a ≡ some finished_voting → b ≡ some approved → Moves a b
  is_paid_out : a ≡ some approved → b ≡ some completed → Moves a b
  loses_vote : a ≡ some on_vote → b ≡ some rejected → Moves a b
  is_turned_down : a ≡ some pending → b ≡ some rejected → Moves a b
  fails_review : a ≡ some finished_voting → b ≡ some rejected → Moves a b
  loses_funds : a ≡ some approved → b ≡ some rejected → Moves a b
  removes_rejected : a ≡ some rejected → b ≡ none → Moves a b
  removes_completed : a ≡ some completed → b ≡ none → Moves a b

-- One row is written, or erased; the others keep their status.
module _ {D : Type 0} (k : ℕ) (t : Table.Table (Proposal D)) where
  pub written :
      (new : Proposal D)
      → Moves (status_in (Table.find k t)) (some new.status)
      → (p : ℕ) → Moves (status_in (Table.find p t)) (status_in (Table.find p (Table.set k new t)))
  written new move p = elim (Bool-cases (k == p)) [
    | inl hit ↦
        rw (Table.find-set k p new t, hit)
          (subst (λ j. Moves (status_in (Table.find j t)) (some new.status)) (same hit) move)
    | inr miss ↦ rw (Table.find-set k p new t, miss) (keeps refl)
  ]
    where
      same : (k == p) ≡ true → k ≡ p
      same hit = ground arith

  pub removed :
      Moves (status_in (Table.find k t)) none
      → (p : ℕ) → Moves (status_in (Table.find p t)) (status_in (Table.find p (Table.erase k t)))
  removed move p = elim (Bool-cases (k == p)) [
    | inl hit ↦
        rw (Table.find-erase k p t, hit)
          (subst (λ j. Moves (status_in (Table.find j t)) none) (same hit) move)
    | inr miss ↦ rw (Table.find-erase k p t, miss) (keeps refl)
  ]
    where
      same : (k == p) ≡ true → k ≡ p
      same hit = ground arith

-- ===== src/Msig.antt =====
-- contracts/eosio.msig: src/eosio.msig.cpp and include/eosio.msig/eosio.msig.hpp.
-- Tables with the proposer as scope and the proposal's name as key, and the `invals` table of the
-- contract itself. A transaction is its bytes; what the toolkit's deserialiser reads from them, the
-- chain's authorization check and the hash are the parameter `TrxLib`.
pub mod Actions
pub mod Exec
pub mod Delay
pub mod Invalidate
pub mod Rows
pub mod Levels
pub mod Coherence
mod Tests
use wax_system_contracts.Prelude.{
  ℕ, ◌+◌, ◌*◌, ◌≡◌, Bool, true, false, not, ◌&&◌, ◌||◌, Option, none, some, Result, ok, err, ◌>>=◌,
  ◌>>◌, check, or_fail, ◌==◌, ◌!=◌, leb, ltb, if◌then◌else◌, is_some, is_none, is_empty, List, [],
  ◌∷◌, ◌++◌, map, after, String,
}
use wax_system_contracts.Prelude.Int.{ℤ, pos, ltb_ℤ}
use wax_system_contracts.Prelude.Table
use wax_system_contracts.Prelude.Table.{Table}
use wax_system_contracts.Prelude.Scoped
use wax_system_contracts.Prelude.Scoped.{Scoped}
use wax_system_contracts.Asset.{Chain, require_auth}

pub record PermissionLevel : Type 0 where
  pub actor : ℕ
  pub permission : ℕ

abbrev pub same_level : PermissionLevel → PermissionLevel → Bool
same_level a b = a.actor == b.actor && a.permission == b.permission

abbrev pub Bytes : Type 0
Bytes = List ℕ

pub record TransactionHeader : Type 0 where
  pub expiration : ℕ
  pub delay_sec : ℕ

pub record TrxLib : Type 0 where
  -- The three parts that `ds >>` reads, in this order; it aborts on malformed bytes.
  pub header : Bytes → Result TransactionHeader
  pub context_free_actions : Bytes → Result (List Bytes)
  pub actions : Bytes → Result (List Bytes)
  -- `check_transaction_authorization`, with the approvals packed for it
  pub check_authorization : Bytes → List PermissionLevel → ℤ
  pub sha256 : Bytes → ℕ

pub record Approval : Type 0 where
  pub level : PermissionLevel
  pub time : ℕ

-- The outer option is the binary extension, which rows of the first version lack.
pub record Proposal : Type 0 where
  pub packed_transaction : Bytes
  pub earliest_exec_time : Option (Option ℕ)

pub record ApprovalsInfo : Type 0 where
  pub requested_approvals : List Approval
  pub provided_approvals : List Approval

pub record OldApprovalsInfo : Type 0 where
  pub requested_approvals : List PermissionLevel
  pub provided_approvals : List PermissionLevel

pub record Msig : Type 0 where
  pub proposals : Scoped Proposal
  pub approvals : Scoped ApprovalsInfo
  pub old_approvals : Scoped OldApprovalsInfo
  pub invalidations : Table ℕ

-- `std::find_if( … ) != end()` and `erase( itr )`, over the levels of a list.
unfoldable pub has_level {ℓ} :
    {A : Type ℓ} → (A → PermissionLevel) → PermissionLevel → List A → Bool
has_level f l [] = false
has_level f l (a ∷ as') = if same_level (f a) l then true else has_level f l as'

unfoldable pub erase_level {ℓ} :
    {A : Type ℓ} → (A → PermissionLevel) → PermissionLevel → List A → List A
erase_level f l [] = []
erase_level f l (a ∷ as') = if same_level (f a) l then as' else a ∷ erase_level f l as'

abbrev pub level_of : Approval → PermissionLevel
level_of a = a.level

abbrev pub itself : PermissionLevel → PermissionLevel
itself l = l

-- `iter == end() || iter->last_invalidation_time < permission.time`
abbrev pub stands : Option ℕ → ℕ → Bool
stands none time = true
stands (some last) time = ltb last time

-- The two loops of `get_approvals_and_adjust_table`.
unfoldable pub valid_approvals : Table ℕ → List Approval → List PermissionLevel
valid_approvals inv [] = []
valid_approvals inv (a ∷ as') =
    if stands (Table.find a.level.actor inv) a.time
    then a.level ∷ valid_approvals inv as'
    else valid_approvals inv as'

unfoldable pub valid_old_approvals : Table ℕ → List PermissionLevel → List PermissionLevel
valid_old_approvals inv [] = []
valid_old_approvals inv (l ∷ ls) =
    if is_none (Table.find l.actor inv)
    then l ∷ valid_old_approvals inv ls
    else valid_old_approvals inv ls

-- The operation that the callers pass: `approve` and `unapprove` leave the row, `exec` erases it.
pub data TableOp : Type 0 where
  leave erase_row : TableOp

unfoldable pub adjust_new : TableOp → ℕ → ℕ → Msig → Msig
adjust_new leave proposer name s = s
adjust_new erase_row proposer name s = record s {
  approvals = Scoped.erase proposer name s.approvals;
}

unfoldable pub adjust_old : TableOp → ℕ → ℕ → Msig → Msig
adjust_old leave proposer name s = s
adjust_old erase_row proposer name s = record s {
  old_approvals = Scoped.erase proposer name s.old_approvals;
}

unfoldable pub get_approvals_and_adjust_table :
    TableOp → ℕ → ℕ → Msig → Result (List PermissionLevel × Msig)
get_approvals_and_adjust_table op proposer name s = elim (Scoped.find proposer name s.approvals) [
  | some row ↦
      ok (valid_approvals s.invalidations row.provided_approvals, adjust_new op proposer name s)
  | none ↦ do
    row ← or_fail (Scoped.find proposer name s.old_approvals) "proposal not found"
    ok (valid_old_approvals s.invalidations row.provided_approvals, adjust_old op proposer name s)
]

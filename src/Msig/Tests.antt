-- ===== src/Msig/Tests.antt =====
-- Runs of eosio.msig and its theorems at concrete inputs.
use wax_system_contracts.Prelude.{
  ℕ, ◌≡◌, ◌≤◌, refl, Bool, true, Option, none, some, ok, err, arith, List, [], ◌∷◌, ◌++◌, Perm, leb,
  if◌then◌else◌, is_empty, ◌*◌,
}
use wax_system_contracts.Prelude.Int.{pos}
use wax_system_contracts.Prelude.Table
use wax_system_contracts.Prelude.Scoped
use wax_system_contracts.Asset.{Chain}
use wax_system_contracts.Msig.{
  PermissionLevel, TrxLib, TransactionHeader, Proposal, ApprovalsInfo, Msig, valid_approvals,
  get_approvals_and_adjust_table, has_level, erase_level, adjust_new, level_of, itself,
}
use wax_system_contracts.Msig.Actions.{
  propose, approve, unapprove, exec, invalidate, provide, take_back, start_clock, reset_clock,
  trx_is_authorized, proposes, apply,
}
use wax_system_contracts.Msig.Exec.{Counted, IsDue, exec_sound, exec_once}
use wax_system_contracts.Msig.Delay.{approve_starts_delay}
use wax_system_contracts.Msig.Invalidate.{invalidate_withdraws, without}
use wax_system_contracts.Msig.Rows.{levels_of, dated_of, on_dated}
use wax_system_contracts.Msig.Levels.{approve_levels, unapprove_levels}
use wax_system_contracts.Msig.Coherence.{IsCoherent}
use wax_system_contracts.Msig.Coherence.Steps.{apply-IsCoherent}

abbrev active : ℕ → PermissionLevel
active n = record { actor = n; permission = 1 }

-- One approval authorizes; a transaction waits one second and expires at 100 s.
abbrev trx_lib : TrxLib
trx_lib = record {
  header = λ b. ok (record { expiration = 100; delay_sec = 1 });
  context_free_actions = λ b. ok [];
  actions = λ b. ok (b ∷ []);
  check_authorization = λ b ls. if is_empty ls then pos 0 else pos 1;
  sha256 = λ b. 0;
}

abbrev at_time : ℕ → Chain
at_time sec = record {
  has_auth = λ n. true;
  is_account = λ n. true;
  has_permission = λ a p. true;
  now = sec * 1000000;
  now_sec = sec;
}

abbrev no_proposals : Msig
no_proposals = record { proposals = []; approvals = []; old_approvals = []; invalidations = [] }

abbrev prop : Option ℕ → Proposal
prop time = record { packed_transaction = 5 ∷ []; earliest_exec_time = some time }

abbrev asked : ApprovalsInfo
asked = record {
  requested_approvals =
      record { level = active 2; time = 0 } ∷ record { level = active 3; time = 0 } ∷ [];
  provided_approvals = [];
}

abbrev given : ApprovalsInfo
given = record {
  requested_approvals = record { level = active 2; time = 0 } ∷ [];
  provided_approvals = record { level = active 3; time = 10000000 } ∷ [];
}

abbrev taken : ApprovalsInfo
taken = record {
  requested_approvals =
      record { level = active 2; time = 0 } ∷ record { level = active 3; time = 11000000 } ∷ [];
  provided_approvals = [];
}

abbrev with_row : Option ℕ → ApprovalsInfo → Msig
with_row time row = record no_proposals {
  proposals = (1, 4, prop time) ∷ [];
  approvals = (1, 4, row) ∷ [];
}

abbrev approved : Msig
approved = with_row (some 11000000) given

approves_it : approve trx_lib (at_time 10) 1 4 (active 3) none (with_row none asked) ≡ ok approved
unfolding approve provide start_clock has_level erase_level get_approvals_and_adjust_table
    adjust_new valid_approvals trx_is_authorized Scoped.find Scoped.set Table.find
approves_it = refl

takes_it_back : unapprove trx_lib (at_time 11) 1 4 (active 3) approved ≡ ok (with_row none taken)
unfolding unapprove take_back reset_clock has_level erase_level get_approvals_and_adjust_table
    adjust_new valid_approvals trx_is_authorized Scoped.find Scoped.set Table.find
takes_it_back = refl

-- A proposal in the format of the first version, which has no clock and allows no delay.
abbrev no_delay_lib : TrxLib
no_delay_lib = record trx_lib { header = λ b. ok (record { expiration = 100; delay_sec = 0 }) }

abbrev with_old_row : List PermissionLevel → List PermissionLevel → Msig
with_old_row requested provided = record no_proposals {
  proposals = (1, 4, record { packed_transaction = 5 ∷ []; earliest_exec_time = none }) ∷ [];
  old_approvals =
      (1, 4, record { requested_approvals = requested; provided_approvals = provided }) ∷ [];
}

abbrev approved_old : Msig
approved_old = with_old_row (active 2 ∷ []) (active 3 ∷ [])

approves_old :
    approve no_delay_lib
      (at_time 10)
      1
      4
      (active 3)
      none
      (with_old_row (active 2 ∷ active 3 ∷ []) [])
    ≡ ok approved_old
unfolding approve provide start_clock has_level erase_level Scoped.find Scoped.set
approves_old = refl

takes_old_back :
    unapprove no_delay_lib (at_time 11) 1 4 (active 3) approved_old
    ≡ ok (with_old_row (active 2 ∷ active 3 ∷ []) [])
unfolding unapprove take_back reset_clock has_level erase_level Scoped.find Scoped.set
takes_old_back = refl

executes : exec trx_lib (at_time 11) 1 4 8 approved ≡ ok ((5 ∷ []) ∷ [], no_proposals)
unfolding exec get_approvals_and_adjust_table adjust_new valid_approvals trx_is_authorized
    Scoped.find Scoped.erase Table.find
executes = refl

too_early : exec trx_lib (at_time 10) 1 4 8 approved ≡ err "too early to execute"
unfolding exec get_approvals_and_adjust_table adjust_new valid_approvals trx_is_authorized
    Scoped.find Scoped.erase Table.find
too_early = refl

counted : Counted 1 4 approved (active 3 ∷ [])
unfolding get_approvals_and_adjust_table adjust_new valid_approvals Scoped.find Table.find
counted = refl

no_proposals-IsCoherent : IsCoherent no_proposals
unfolding Scoped.find
no_proposals-IsCoherent = record { paired = λ p n. refl; single = λ p n. refl }

exec_sound_example :
    (p : Proposal) × (header : TransactionHeader) × (levels : List PermissionLevel) × (Scoped.find 1
        4 approved.proposals
      ≡ some p)
    × (true ≡ true)
    × (trx_lib.header p.packed_transaction ≡ ok header)
    × (11 ≤ header.expiration)
    × (trx_lib.context_free_actions p.packed_transaction ≡ ok [])
    × (trx_lib.actions p.packed_transaction ≡ ok ((5 ∷ []) ∷ []))
    × Counted 1 4 approved levels
    × (trx_is_authorized trx_lib levels p.packed_transaction ≡ true)
    × IsDue 11000000 p.earliest_exec_time header
    × (no_proposals.proposals ≡ Scoped.erase 1 4 approved.proposals)
exec_sound_example = exec_sound trx_lib (at_time 11) 1 4 8 approved no_proposals _ executes

exec_once_example : exec trx_lib (at_time 12) 1 4 9 no_proposals ≡ err "proposal not found"
exec_once_example =
    exec_once trx_lib (at_time 11) (at_time 12) 1 4 8 9 approved no_proposals _ executes refl

approve_starts_delay_example :
    (u : Msig) × (exec trx_lib (at_time 11) 1 4 8 approved
      ≡ (if leb 11000000 11000000 then ok ((5 ∷ []) ∷ [], u) else err "too early to execute"))
    × (u.proposals ≡ Scoped.erase 1 4 approved.proposals)
unfolding Scoped.find trx_is_authorized
approve_starts_delay_example =
    approve_starts_delay trx_lib (at_time 10) (at_time 11) 1 4 8 (active 3) none
      (with_row none asked) approved (prop none) _ (active 3 ∷ []) ((5 ∷ []) ∷ []) refl refl
      approves_it counted refl refl refl refl refl (omega arith)

abbrev withdrawn : Msig
withdrawn = record approved { invalidations = (3, 20000000) ∷ [] }

invalidate_withdraws_example : Counted 1 4 withdrawn []
unfolding without Scoped.find Table.set invalidate
invalidate_withdraws_example =
    invalidate_withdraws (at_time 20) 3 1 4 approved withdrawn given (active 3 ∷ []) refl refl
      (omega arith) counted

approve_levels_example :
    (requested : List PermissionLevel) × (provided : List PermissionLevel) × (requested' : List
      PermissionLevel)
    × (provided' : List PermissionLevel) × (◌≡◌ {A = Bool} true true)
    × (levels_of 1 4 (with_row none asked) ≡ some (requested, provided))
    × (levels_of 1 4 approved ≡ some (requested', provided'))
    × (has_level itself (active 3) requested ≡ true)
    × (provided' ≡ provided ++ active 3 ∷ [])
    × Perm (requested' ++ provided') (requested ++ provided)
    × (dated_of 1 4 approved
        ≡ on_dated
            (λ xs. xs ++ record { level = active 3; time = 10000000 } ∷ [])
            (dated_of 1 4 (with_row none asked)))
approve_levels_example =
    approve_levels trx_lib (at_time 10) 1 4 (active 3) none (with_row none asked) approved
      approves_it

unapprove_levels_example :
    (requested : List PermissionLevel) × (provided : List PermissionLevel) × (requested' : List
      PermissionLevel)
    × (provided' : List PermissionLevel) × (◌≡◌ {A = Bool} true true)
    × (levels_of 1 4 approved_old ≡ some (requested, provided))
    × (levels_of 1 4 (with_old_row (active 2 ∷ active 3 ∷ []) []) ≡ some (requested', provided'))
    × (has_level itself (active 3) provided ≡ true)
    × (requested' ≡ requested ++ active 3 ∷ [])
    × (provided' ≡ erase_level itself (active 3) provided)
    × Perm (requested' ++ provided') (requested ++ provided)
    × (dated_of 1 4 (with_old_row (active 2 ∷ active 3 ∷ []) [])
        ≡ on_dated (erase_level level_of (active 3)) (dated_of 1 4 approved_old))
unapprove_levels_example =
    unapprove_levels no_delay_lib (at_time 11) 1 4 (active 3) approved_old
      (with_old_row (active 2 ∷ active 3 ∷ []) []) takes_old_back

apply-IsCoherent_example : IsCoherent (with_row none asked)
unfolding apply propose Scoped.find Scoped.set
apply-IsCoherent_example =
    apply-IsCoherent trx_lib (at_time 9) (proposes 1 4 (active 2 ∷ active 3 ∷ []) (5 ∷ []))
      no_proposals (with_row none asked) no_proposals-IsCoherent refl

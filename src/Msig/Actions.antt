-- ===== src/Msig/Actions.antt =====
-- The actions of eosio.msig, in src/eosio.msig.cpp.
use wax_system_contracts.Prelude.{
  ℕ, ◌+◌, ◌*◌, Bool, not, ◌||◌, Option, none, some, Result, ok, ◌>>=◌, ◌>>◌, check, or_fail, ◌==◌,
  ◌!=◌, leb, ltb, if◌then◌else◌, is_some, is_none, is_empty, List, [], ◌∷◌, ◌++◌, map, String,
}
use wax_system_contracts.Prelude.Int.{ℤ, pos, ltb_ℤ}
use wax_system_contracts.Prelude.Table
use wax_system_contracts.Prelude.Scoped
use wax_system_contracts.Asset.{Chain, require_auth}
use wax_system_contracts.Msig.{
  PermissionLevel, Bytes, TransactionHeader, TrxLib, Proposal, Msig, has_level, erase_level,
  level_of, itself, leave, erase_row, adjust_new, adjust_old, get_approvals_and_adjust_table,
}

-- `eosio::seconds`, in microseconds.
abbrev pub seconds : ℕ → ℕ
seconds n = n * 1000000

abbrev pub nonzero : ℤ → Bool
nonzero r = ltb_ℤ (pos 0) r || ltb_ℤ r (pos 0)

abbrev pub old_delay : String
old_delay = "old proposals are not allowed to have non-zero `delay_sec`; cancel and retry"

abbrev pub require_level : Chain → PermissionLevel → Result (Unit {0})
require_level c l = check (c.has_permission l.actor l.permission) "missing required authority"

module _ (lib : TrxLib) where
  unfoldable pub trx_is_authorized : List PermissionLevel → Bytes → Bool
  trx_is_authorized approvals trx = nonzero (lib.check_authorization trx approvals)

  unfoldable pub propose : Chain → ℕ → ℕ → List PermissionLevel → Bytes → Msig → Result Msig
  propose c proposer name requested trx s = do
    require_auth c proposer
    header ← lib.header trx
    check (leb c.now_sec header.expiration) "transaction expired"
    cfa ← lib.context_free_actions trx
    check (is_empty cfa) "not allowed to `propose` a transaction with context-free actions"
    check (is_none (Scoped.find proposer name s.proposals)) "proposal with the same name exists"
    check (ltb_ℤ (pos 0) (lib.check_authorization trx requested)) "transaction authorization failed"
    check (is_none (Scoped.find proposer name s.approvals))
        "could not insert object, most likely a uniqueness constraint was violated"
    ok (record s {
      proposals =
          Scoped.set proposer name
            (record { packed_transaction = trx; earliest_exec_time = some none }) s.proposals;
      approvals =
          Scoped.set proposer name
            (record {
              requested_approvals = map (λ l. record { level = l; time = 0 }) requested;
              provided_approvals = [];
            })
            s.approvals;
    })

  -- The part of `approve` that moves the level from one list to the other.
  unfoldable pub provide : ℕ → ℕ → ℕ → PermissionLevel → Msig → Result Msig
  provide now proposer name level s = elim (Scoped.find proposer name s.approvals) [
    | some row ↦ do
      check (has_level level_of level row.requested_approvals)
          "approval is not on the list of requested approvals"
      ok (record s {
        approvals =
            Scoped.set proposer name
              (record {
                provided_approvals =
                    row.provided_approvals ++ record { level = level; time = now } ∷ [];
                requested_approvals = erase_level level_of level row.requested_approvals;
              })
              s.approvals;
      })
    | none ↦ do
      row ← or_fail (Scoped.find proposer name s.old_approvals) "proposal not found"
      check (has_level itself level row.requested_approvals)
          "approval is not on the list of requested approvals"
      ok (record s {
        old_approvals =
            Scoped.set proposer name
              (record {
                provided_approvals = row.provided_approvals ++ level ∷ [];
                requested_approvals = erase_level itself level row.requested_approvals;
              })
              s.old_approvals;
      })
  ]

  -- The part of `unapprove` that moves the level back.
  unfoldable pub take_back : ℕ → ℕ → ℕ → PermissionLevel → Msig → Result Msig
  take_back now proposer name level s = elim (Scoped.find proposer name s.approvals) [
    | some row ↦ do
      check (has_level level_of level row.provided_approvals) "no approval previously granted"
      ok (record s {
        approvals =
            Scoped.set proposer name
              (record {
                requested_approvals =
                    row.requested_approvals ++ record { level = level; time = now } ∷ [];
                provided_approvals = erase_level level_of level row.provided_approvals;
              })
              s.approvals;
      })
    | none ↦ do
      row ← or_fail (Scoped.find proposer name s.old_approvals) "proposal not found"
      check (has_level itself level row.provided_approvals) "no approval previously granted"
      ok (record s {
        old_approvals =
            Scoped.set proposer name
              (record {
                requested_approvals = row.requested_approvals ++ level ∷ [];
                provided_approvals = erase_level itself level row.provided_approvals;
              })
              s.old_approvals;
      })
  ]

  abbrev pub set_exec_time : ℕ → ℕ → Proposal → Option ℕ → Msig → Msig
  set_exec_time proposer name prop time s = record s {
    proposals =
        Scoped.set proposer name (record prop { earliest_exec_time = some time }) s.proposals;
  }

  -- The end of `approve`: the clock starts when the approvals first suffice.
  unfoldable pub start_clock : Chain → ℕ → ℕ → Proposal → TransactionHeader → Msig → Result Msig
  unfolding trx_is_authorized
  start_clock c proposer name prop header s = elim prop.earliest_exec_time [
    | some (some time) ↦ ok s
    | some none ↦ do
      (levels, _) ← get_approvals_and_adjust_table leave proposer name s
      ok (
          if trx_is_authorized levels prop.packed_transaction
          then set_exec_time proposer name prop (some (c.now + seconds header.delay_sec)) s
          else s)
    | none ↦ do check (header.delay_sec == 0) old_delay; ok s
  ]

  -- The end of `unapprove`: the clock is reset when the approvals no longer suffice.
  unfoldable pub reset_clock : ℕ → ℕ → Proposal → Msig → Result Msig
  unfolding trx_is_authorized
  reset_clock proposer name prop s = elim prop.earliest_exec_time [
    | some (some time) ↦ do
      (levels, _) ← get_approvals_and_adjust_table leave proposer name s
      ok (
          if not (trx_is_authorized levels prop.packed_transaction)
          then set_exec_time proposer name prop none s
          else s)
    | some none ↦ ok s
    | none ↦ do
      header ← lib.header prop.packed_transaction
      check (header.delay_sec == 0) old_delay
      ok s
  ]

  abbrev hash_matches : Option ℕ → Bytes → Result (Unit {0})
  hash_matches none trx = ok tt
  hash_matches (some h) trx = check (lib.sha256 trx == h) "hash mismatch"

  unfoldable pub approve : Chain → ℕ → ℕ → PermissionLevel → Option ℕ → Msig → Result Msig
  approve c proposer name level proposal_hash s = do
    require_level c level
    prop ← or_fail (Scoped.find proposer name s.proposals) "proposal not found"
    hash_matches proposal_hash prop.packed_transaction
    s' ← provide c.now proposer name level s
    header ← lib.header prop.packed_transaction
    start_clock c proposer name prop header s'

  unfoldable pub unapprove : Chain → ℕ → ℕ → PermissionLevel → Msig → Result Msig
  unapprove c proposer name level s = do
    require_level c level
    s' ← take_back c.now proposer name level s
    prop ← or_fail (Scoped.find proposer name s'.proposals) "proposal not found"
    reset_clock proposer name prop s'

  abbrev expired_for : Chain → ℕ → ℕ → Bytes → Result (Unit {0})
  expired_for c proposer canceler trx =
      if canceler != proposer
      then (do
        header ← lib.header trx
        check (ltb header.expiration c.now_sec) "cannot cancel until expiration")
      else ok tt

  unfoldable pub cancel : Chain → ℕ → ℕ → ℕ → Msig → Result Msig
  cancel c proposer name canceler s = do
    require_auth c canceler
    prop ← or_fail (Scoped.find proposer name s.proposals) "proposal not found"
    expired_for c proposer canceler prop.packed_transaction
    let s' = record s { proposals = Scoped.erase proposer name s.proposals }
    if is_some (Scoped.find proposer name s.approvals)
        then ok (adjust_new erase_row proposer name s')
        else (do
          check (is_some (Scoped.find proposer name s.old_approvals)) "proposal not found"
          ok (adjust_old erase_row proposer name s'))

  -- `**prop.earliest_exec_time <= current_time_point()`, or no delay without a clock.
  abbrev delay_passed : Chain → Option (Option ℕ) → TransactionHeader → Result (Unit {0})
  delay_passed c (some (some time)) header = check (leb time c.now) "too early to execute"
  delay_passed c (some none) header = check (header.delay_sec == 0) old_delay
  delay_passed c none header = check (header.delay_sec == 0) old_delay

  -- Returns the actions that are sent, in their order.
  unfoldable pub exec : Chain → ℕ → ℕ → ℕ → Msig → Result (List Bytes × Msig)
  exec c proposer name executer s = do
    require_auth c executer
    prop ← or_fail (Scoped.find proposer name s.proposals) "proposal not found"
    header ← lib.header prop.packed_transaction
    check (leb c.now_sec header.expiration) "transaction expired"
    cfa ← lib.context_free_actions prop.packed_transaction
    check (is_empty cfa) "not allowed to `exec` a transaction with context-free actions"
    actions ← lib.actions prop.packed_transaction
    (levels, s') ← get_approvals_and_adjust_table erase_row proposer name s
    check (trx_is_authorized levels prop.packed_transaction) "transaction authorization failed"
    delay_passed c prop.earliest_exec_time header
    ok (actions, record s' { proposals = Scoped.erase proposer name s'.proposals })

unfoldable pub invalidate : Chain → ℕ → Msig → Result Msig
invalidate c account s = do
  require_auth c account
  ok (record s { invalidations = Table.set account c.now s.invalidations })

-- One action of the contract, with its arguments.
pub data Op : Type 0 where
  proposes : ℕ → ℕ → List PermissionLevel → Bytes → Op
  approves : ℕ → ℕ → PermissionLevel → Option ℕ → Op
  unapproves : ℕ → ℕ → PermissionLevel → Op
  cancels : ℕ → ℕ → ℕ → Op
  execs : ℕ → ℕ → ℕ → Op
  invalidates : ℕ → Op

abbrev state_of : Result (List Bytes × Msig) → Result Msig
state_of r = do (_, s) ← r; ok s

module _ (lib : TrxLib) where
  unfoldable pub apply : Chain → Op → Msig → Result Msig
  apply c (proposes proposer name requested trx) s = propose lib c proposer name requested trx s
  apply c (approves proposer name level hash) s = approve lib c proposer name level hash s
  apply c (unapproves proposer name level) s = unapprove lib c proposer name level s
  apply c (cancels proposer name canceler) s = cancel lib c proposer name canceler s
  apply c (execs proposer name executer) s = state_of (exec lib c proposer name executer s)
  apply c (invalidates account) s = invalidate c account s

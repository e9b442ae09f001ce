-- ===== src/Msig/Exec.antt =====
-- When eosio.msig executes a proposal, and what it leaves behind.
use wax_system_contracts.Prelude.{
  ℕ, ◌≡◌, ◌≤◌, refl, true, Option, none, some, ok, err, arith, Option-cases, Result-cases, inl, inr,
  List, [], ◌⊎◌, String,
}
use wax_system_contracts.Prelude.Scoped
use wax_system_contracts.Asset.{Chain}
use wax_system_contracts.Msig.{
  PermissionLevel, Bytes, TransactionHeader, TrxLib, Proposal, Msig, leave, erase_row,
  get_approvals_and_adjust_table, adjust_new, adjust_old, valid_approvals, valid_old_approvals,
}
use wax_system_contracts.Msig.Actions.{trx_is_authorized, exec}

-- The approvals that count for a proposal now.
abbrev pub Counted : ℕ → ℕ → Msig → List PermissionLevel → Type 0
Counted proposer name s levels =
    get_approvals_and_adjust_table leave proposer name s ≡ ok (levels, s)

-- The waiting time is over: the clock was started and has run out, or there is no delay.
abbrev pub IsDue : ℕ → Option (Option ℕ) → TransactionHeader → Type 0
IsDue now (some (some time)) header = time ≤ now
IsDue now (some none) header = header.delay_sec ≡ 0
IsDue now none header = header.delay_sec ≡ 0

-- What the table operation of `exec` leaves: the same approvals count, and no approvals are left
-- where they were found.
pub erased :
    (proposer name : ℕ) (s : Msig)
    → ((e : String) × (get_approvals_and_adjust_table erase_row proposer name s ≡ err e)
        × (get_approvals_and_adjust_table leave proposer name s ≡ err e))
      ⊎ ((levels : List PermissionLevel) × (s' : Msig) × (get_approvals_and_adjust_table erase_row
              proposer name s
            ≡ ok (levels, s'))
          × Counted proposer name s levels
          × (s'.proposals ≡ s.proposals)
          × (s'.invalidations ≡ s.invalidations))
unfolding get_approvals_and_adjust_table adjust_new adjust_old
erased proposer name s = elim (Option-cases (Scoped.find proposer name s.approvals)) [
  | inr (row, e) ↦ inr (
    valid_approvals s.invalidations row.provided_approvals,
    record s { approvals = Scoped.erase proposer name s.approvals },
    ground arith,
    ground arith,
    refl,
    refl,
  )
  | inl e ↦ elim (Option-cases (Scoped.find proposer name s.old_approvals)) [
    | inr (row, f) ↦ inr (
      valid_old_approvals s.invalidations row.provided_approvals,
      record s { old_approvals = Scoped.erase proposer name s.old_approvals },
      ground arith,
      ground arith,
      refl,
      refl,
    )
    | inl f ↦ inl ("proposal not found", ground arith, ground arith)
  ]
]

module _ (lib : TrxLib) where
  -- Everything that a successful `exec` has checked, and its effect on the proposal.
  pub exec_sound :
      (c : Chain) (proposer name executer : ℕ) (s t : Msig) (acts : List Bytes)
      → exec lib c proposer name executer s ≡ ok (acts, t)
      → (prop : Proposal) × (header : TransactionHeader) × (levels : List PermissionLevel)
        × (Scoped.find proposer name s.proposals ≡ some prop)
        × (c.has_auth executer ≡ true)
        × (lib.header prop.packed_transaction ≡ ok header)
        × (c.now_sec ≤ header.expiration)
        × (lib.context_free_actions prop.packed_transaction ≡ ok [])
        × (lib.actions prop.packed_transaction ≡ ok acts)
        × Counted proposer name s levels
        × (trx_is_authorized lib levels prop.packed_transaction ≡ true)
        × IsDue c.now prop.earliest_exec_time header
        × (t.proposals ≡ Scoped.erase proposer name s.proposals)
  unfolding exec
  exec_sound c proposer name executer s t acts h =
      elim (Option-cases (Scoped.find proposer name s.proposals)) [
        | inl missing ↦ absurd (ground arith)
        | inr (prop, found) ↦ elim (Result-cases (lib.header prop.packed_transaction)) [
          | inr (_, e) ↦ absurd (ground arith)
          | inl (header, eh) ↦ elim (erased proposer name s) [
            | inl (_, e, _) ↦ absurd (ground arith)
            | inr (levels, s', e, counted, same, _) ↦ (
              prop,
              header,
              levels,
              found,
              ground arith,
              eh,
              ground arith,
              ground arith,
              ground arith,
              counted,
              ground arith,
              ground arith,
              ground arith,
            )
          ]
        ]
      ]

  -- An executed proposal is gone: nobody can execute it a second time.
  pub exec_once :
      (c d : Chain) (proposer name executer again : ℕ) (s t : Msig) (acts : List Bytes)
      → exec lib c proposer name executer s ≡ ok (acts, t)
      → d.has_auth again ≡ true
      → exec lib d proposer name again t ≡ err "proposal not found"
  unfolding exec
  exec_once c d proposer name executer again s t acts h auth =
      let (_, _, _, _, _, _, _, _, _, _, _, _, t_is) =
        exec_sound c proposer name executer s t acts h in
      let gone : Scoped.find proposer name t.proposals ≡ none =
        rw t_is (ground (arith, Scoped.find-erase proposer name proposer name s.proposals)) in
      ground arith

  -- The checks of `exec` suffice, for a transaction that can be read.
  pub exec_succeeds :
      (c : Chain) (proposer name executer : ℕ) (s : Msig) (prop : Proposal)
      (header : TransactionHeader) (levels : List PermissionLevel) (acts : List Bytes)
      → c.has_auth executer ≡ true
      → Scoped.find proposer name s.proposals ≡ some prop
      → lib.header prop.packed_transaction ≡ ok header
      → c.now_sec ≤ header.expiration
      → lib.context_free_actions prop.packed_transaction ≡ ok []
      → lib.actions prop.packed_transaction ≡ ok acts
      → Counted proposer name s levels
      → trx_is_authorized lib levels prop.packed_transaction ≡ true
      → IsDue c.now prop.earliest_exec_time header
      → (t : Msig) × (exec lib c proposer name executer s ≡ ok (acts, t))
        × (t.proposals ≡ Scoped.erase proposer name s.proposals)
  unfolding exec
  exec_succeeds c proposer name executer s prop header levels acts auth found eh live ecf ea counted
        ok_auth due =
      elim (erased proposer name s) [
        | inl (_, _, e) ↦ absurd (ground arith)
        | inr (levels', s', e, counted', same, _) ↦ (
          record s' { proposals = Scoped.erase proposer name s'.proposals },
          ground arith,
          ground arith,
        )
      ]

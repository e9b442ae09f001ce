-- ===== src/Msig/Delay.antt =====
-- From the `approve` that first makes the approvals suffice to `exec`: the waiting time between them.
use wax_system_contracts.Prelude.{
  ℕ, ◌+◌, ◌≡◌, ◌≤◌, refl, subst, true, false, Bool-cases, Option, none, some, ok, err, arith,
  Result-cases, leb, inl, inr, List, [], if◌then◌else◌,
}
use wax_system_contracts.Prelude.Scoped
use wax_system_contracts.Asset.{Chain}
use wax_system_contracts.Msig.{
  PermissionLevel, Bytes, TransactionHeader, TrxLib, Proposal, Msig, leave,
  get_approvals_and_adjust_table,
}
use wax_system_contracts.Msig.Actions.{
  seconds, trx_is_authorized, set_exec_time, start_clock, provide, approve, exec,
}
use wax_system_contracts.Msig.Exec.{Counted, erased, exec_succeeds}

module _ (lib : TrxLib) where
  -- The clock of a proposal that had none starts when the approvals that count suffice.
  start_clock-started :
      (c : Chain) (proposer name : ℕ) (prop : Proposal) (header : TransactionHeader) (s t : Msig)
      (levels : List PermissionLevel)
      → prop.earliest_exec_time ≡ some none
      → start_clock lib c proposer name prop header s ≡ ok t
      → Counted proposer name t levels
      → trx_is_authorized lib levels prop.packed_transaction ≡ true
      → t ≡ set_exec_time lib proposer name prop (some (c.now + seconds header.delay_sec)) s
  unfolding start_clock
  start_clock-started c proposer name prop header s t levels fresh h counted suffice =
      elim (Result-cases (get_approvals_and_adjust_table leave proposer name s)) [
        | inr (_, e) ↦ absurd (ground arith)
        | inl ((levels', s'), e) ↦
            elim (Bool-cases (trx_is_authorized lib levels' prop.packed_transaction)) [
              | inl suffices ↦ ground arith
              | inr lacking ↦
                  let same : t ≡ s = ground arith in
                  let counted' : Counted proposer name s levels =
                    subst (λ x. Counted proposer name x levels) same counted in
                  absurd (ground arith)
            ]
      ]

  approve_starts :
      (c : Chain) (proposer name : ℕ) (level : PermissionLevel) (hash : Option ℕ) (s t : Msig)
      (prop : Proposal) (header : TransactionHeader) (levels : List PermissionLevel)
      → Scoped.find proposer name s.proposals ≡ some prop
      → prop.earliest_exec_time ≡ some none
      → approve lib c proposer name level hash s ≡ ok t
      → Counted proposer name t levels
      → trx_is_authorized lib levels prop.packed_transaction ≡ true
      → lib.header prop.packed_transaction ≡ ok header
      → Scoped.find proposer name t.proposals
        ≡ some (record prop { earliest_exec_time = some (some (c.now + seconds header.delay_sec)) })
  unfolding approve
  approve_starts c proposer name level hash s t prop header levels found fresh h counted suffice
        eh =
      elim (Result-cases (provide lib c.now proposer name level s)) [
        | inr (_, e) ↦ absurd (ground arith)
        | inl (mid, e) ↦
            let clock : start_clock lib c proposer name prop header mid ≡ ok t = ground arith in
            let t_is =
              start_clock-started c proposer name prop header mid t levels fresh clock counted
                suffice in
            rw t_is (
              ground (
                arith,
                Scoped.find-set proposer name proposer name
                    (record prop {
                      earliest_exec_time = some (some (c.now + seconds header.delay_sec));
                    })
                    mid.proposals,
              ))
      ]

  waits :
      (d : Chain) (proposer name executer time : ℕ) (t : Msig) (prop : Proposal)
      (header : TransactionHeader) (levels : List PermissionLevel) (acts : List Bytes)
      → Scoped.find proposer name t.proposals ≡ some prop
      → prop.earliest_exec_time ≡ some (some time)
      → Counted proposer name t levels
      → trx_is_authorized lib levels prop.packed_transaction ≡ true
      → lib.header prop.packed_transaction ≡ ok header
      → lib.context_free_actions prop.packed_transaction ≡ ok []
      → lib.actions prop.packed_transaction ≡ ok acts
      → d.has_auth executer ≡ true
      → d.now_sec ≤ header.expiration
      → leb time d.now ≡ false
      → exec lib d proposer name executer t ≡ err "too early to execute"
  unfolding exec
  waits d proposer name executer time t prop header levels acts found started counted suffice eh ecf
        ea auth live early =
      elim (erased proposer name t) [
        | inl (_, _, e) ↦ absurd (ground arith)
        | inr (levels', t', e, counted', _, _) ↦ ground arith
      ]

  -- The approval of a proposal whose clock does not run: when the approvals that count then authorize
  -- the transaction (other requested ones may be missing), the clock starts. On the tables as `approve`
  -- leaves them, and until the transaction expires, `exec` by anybody who signs is refused exactly as
  -- long as the delay of the transaction has not passed since, and then sends the actions and removes
  -- the proposal; on the condition that the transaction can be read and has no context-free actions.
  pub approve_starts_delay :
      (c d : Chain) (proposer name executer : ℕ) (level : PermissionLevel) (hash : Option ℕ)
      (s t : Msig) (prop : Proposal) (header : TransactionHeader) (levels : List PermissionLevel)
      (acts : List Bytes)
      → Scoped.find proposer name s.proposals ≡ some prop
      → prop.earliest_exec_time ≡ some none
      → approve lib c proposer name level hash s ≡ ok t
      → Counted proposer name t levels
      → trx_is_authorized lib levels prop.packed_transaction ≡ true
      → lib.header prop.packed_transaction ≡ ok header
      → lib.context_free_actions prop.packed_transaction ≡ ok []
      → lib.actions prop.packed_transaction ≡ ok acts
      → d.has_auth executer ≡ true
      → d.now_sec ≤ header.expiration
      → (u : Msig) × (exec lib d proposer name executer t ≡ (
          if leb (c.now + seconds header.delay_sec) d.now
          then ok (acts, u)
          else err "too early to execute"))
        × (u.proposals ≡ Scoped.erase proposer name t.proposals)
  approve_starts_delay c d proposer name executer level hash s t prop header levels acts found fresh
        h counted suffice eh ecf ea auth live =
      let time = c.now + seconds header.delay_sec in
      let prop' : Proposal = record prop { earliest_exec_time = some (some time) } in
      let found' =
        approve_starts c proposer name level hash s t prop header levels found fresh h counted
          suffice eh in
      elim (Bool-cases (leb time d.now)) [
        | inl due ↦
            let (u, sent, gone) =
              exec_succeeds lib d proposer name executer t prop' header levels acts auth found' eh
                live ecf ea counted suffice (ground arith) in
            (u, rw due sent, gone)
        | inr early ↦
            let refused =
              waits d proposer name executer time t prop' header levels acts found' refl counted
                suffice eh ecf ea auth live early in
            (
              record t { proposals = Scoped.erase proposer name t.proposals },
              rw early refused,
              refl,
            )
      ]

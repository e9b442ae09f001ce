-- ===== src/Token/Effects.antt =====
-- What a successful call of the balance helpers and of each action has done, branch by branch.
use wax_system_contracts.Prelude.{
  ℕ, ◌≡◌, true, some, ok, arith, Option-cases, Result-cases, inl, inr, ◌≢◌, ◌≤◌,
}
use wax_system_contracts.Prelude.Int.{pos, ◌-ℤ◌, ◌≤ℤ◌, ◌<ℤ◌, wrap64}
use wax_system_contracts.Prelude.Table
use wax_system_contracts.Prelude.Scoped
use wax_system_contracts.Asset.{Asset, same_symbol, AssetLib, Chain}
use wax_system_contracts.Token.{
  Token, CurrencyStats, sub_balance, add_balance, credit, issue, retire, transfer,
}

module _ (lib : AssetLib) where
  pub sub_balance-ok :
      (owner : ℕ) (value : Asset) (s t : Token)
      → sub_balance lib owner value s ≡ ok t
      → (from balance : Asset) × (Scoped.find owner value.symbol.code s.accounts ≡ some from)
        × (value.amount ≤ℤ from.amount)
        × (lib.minus from value ≡ ok balance)
        × (t ≡ record s { accounts = Scoped.set owner value.symbol.code balance s.accounts })
  unfolding sub_balance
  sub_balance-ok owner value s t h =
      elim (Option-cases (Scoped.find owner value.symbol.code s.accounts)) [
        | inl missing ↦ absurd (ground arith)
        | inr (from, found) ↦ elim (Result-cases (lib.minus from value)) [
          | inl (balance, e) ↦ (from, balance, found, ground arith, e, ground arith)
          | inr (_, e) ↦ absurd (ground arith)
        ]
      ]

  pub add_balance-ok :
      (owner : ℕ) (value : Asset) (s t : Token)
      → add_balance lib owner value s ≡ ok t
      → (balance : Asset) × (credit lib (Scoped.find owner value.symbol.code s.accounts) value
          ≡ ok balance)
        × (t ≡ record s { accounts = Scoped.set owner value.symbol.code balance s.accounts })
  unfolding add_balance
  add_balance-ok owner value s t h =
      elim (Result-cases (credit lib (Scoped.find owner value.symbol.code s.accounts) value)) [
        | inl (balance, e) ↦ (balance, e, ground arith)
        | inr (_, e) ↦ absurd (ground arith)
      ]

  pub transfer-ok :
      (c : Chain) (from to : ℕ) (q : Asset) (memo : ℕ) (s t : Token)
      → transfer lib c from to q memo s ≡ ok t
      → (st : CurrencyStats) × (mid : Token) × (Table.find q.symbol.code s.stats ≡ some st)
        × (from ≢ to)
        × (c.has_auth from ≡ true)
        × (c.is_account to ≡ true)
        × (lib.is_valid q ≡ true)
        × (pos 0 <ℤ q.amount)
        × (same_symbol q.symbol st.supply.symbol ≡ true)
        × (memo ≤ 256)
        × (sub_balance lib from q s ≡ ok mid)
        × (add_balance lib to q mid ≡ ok t)
  unfolding transfer
  transfer-ok c from to q memo s t h = elim (Option-cases (Table.find q.symbol.code s.stats)) [
    | inl missing ↦ absurd (ground arith)
    | inr (st, found) ↦ elim (Result-cases (sub_balance lib from q s)) [
      | inl (mid, e) ↦ (
        st,
        mid,
        found,
        ground arith,
        ground arith,
        ground arith,
        ground arith,
        ground arith,
        ground arith,
        ground arith,
        e,
        ground arith,
      )
      | inr (_, e) ↦ absurd (ground arith)
    ]
  ]

  pub issue-ok :
      (c : Chain) (to : ℕ) (q : Asset) (memo : ℕ) (s t : Token)
      → issue lib c to q memo s ≡ ok t
      → (st : CurrencyStats) × (supply : Asset) × (Table.find q.symbol.code s.stats ≡ some st)
        × (to ≡ st.issuer)
        × (c.has_auth st.issuer ≡ true)
        × (lib.is_valid q ≡ true)
        × (pos 0 <ℤ q.amount)
        × (same_symbol q.symbol st.supply.symbol ≡ true)
        × (q.amount ≤ℤ wrap64 (st.max_supply.amount -ℤ st.supply.amount))
        × (lib.plus st.supply q ≡ ok supply)
        × (add_balance lib st.issuer q
              (record s { stats = Table.set q.symbol.code (record st { supply = supply }) s.stats })
            ≡ ok t)
  unfolding issue
  issue-ok c to q memo s t h = elim (Option-cases (Table.find q.symbol.code s.stats)) [
    | inl missing ↦ absurd (ground arith)
    | inr (st, found) ↦ elim (Result-cases (lib.plus st.supply q)) [
      | inl (supply, e) ↦ (
        st,
        supply,
        found,
        ground arith,
        ground arith,
        ground arith,
        ground arith,
        ground arith,
        ground arith,
        e,
        ground arith,
      )
      | inr (_, e) ↦ absurd (ground arith)
    ]
  ]

  pub retire-ok :
      (c : Chain) (q : Asset) (memo : ℕ) (s t : Token)
      → retire lib c q memo s ≡ ok t
      → (st : CurrencyStats) × (supply : Asset) × (Table.find q.symbol.code s.stats ≡ some st)
        × (c.has_auth st.issuer ≡ true)
        × (lib.is_valid q ≡ true)
        × (pos 0 <ℤ q.amount)
        × (same_symbol q.symbol st.supply.symbol ≡ true)
        × (lib.minus st.supply q ≡ ok supply)
        × (sub_balance lib st.issuer q
              (record s { stats = Table.set q.symbol.code (record st { supply = supply }) s.stats })
            ≡ ok t)
  unfolding retire
  retire-ok c q memo s t h = elim (Option-cases (Table.find q.symbol.code s.stats)) [
    | inl missing ↦ absurd (ground arith)
    | inr (st, found) ↦ elim (Result-cases (lib.minus st.supply q)) [
      | inl (supply, e) ↦ (
        st,
        supply,
        found,
        ground arith,
        ground arith,
        ground arith,
        ground arith,
        e,
        ground arith,
      )
      | inr (_, e) ↦ absurd (ground arith)
    ]
  ]

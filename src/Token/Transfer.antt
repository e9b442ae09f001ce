-- ===== src/Token/Transfer.antt =====
-- What a transfer does to every row, and that nothing but its guards can stop it.
use wax_system_contracts.Prelude.{
  ℕ, ◌≡◌, ◌≢◌, ◌≤◌, ap, sym, true, ◌&&◌, Option, none, some, ok, ◌==◌, arith, if◌then◌else◌,
  Option-cases, inl, inr, ◌∙◌,
}
use wax_system_contracts.Prelude.Int.{
  ℤ, pos, ◌+ℤ◌, ◌-ℤ◌, ◌≤ℤ◌, ◌<ℤ◌, int_laws, parts_of_eq, zero-+ℤ,
}
use wax_system_contracts.Prelude.Table
use wax_system_contracts.Prelude.Scoped
use wax_system_contracts.Prelude.Scoped.Sum.{find-le-sum_key, find_nonneg}
use wax_system_contracts.Asset.{Asset, AssetLib, AssetLaws, Chain, InRange}
use wax_system_contracts.Token.{Token, CurrencyStats, transfer, sub_balance, add_balance, credit}
use wax_system_contracts.Token.Effects.{transfer-ok, sub_balance-ok, add_balance-ok}
use wax_system_contracts.Token.Rows.{amount_of, circulating, at_key, sub_balance-Rows}
use wax_system_contracts.Token.Invariant.{IsValid, supply_of}

abbrev pub amount_in : Option Asset → ℤ
amount_in none = pos 0
amount_in (some a) = a.amount

-- What an owner holds of a token; without a row, nothing.
abbrev pub balance_of : ℕ → ℕ → Token → ℤ
balance_of o k s = amount_in (Scoped.find o k s.accounts)

module _ (lib : AssetLib) (laws : AssetLaws lib) where
  debited :
      (o : ℕ) (v : Asset) (s t : Token) (o' k' : ℕ)
      → sub_balance lib o v s ≡ ok t
      → Scoped.find o' k' t.accounts ≡ (
          if o == o' && v.symbol.code == k'
          then some
              (record { amount = balance_of o v.symbol.code s -ℤ v.amount; symbol = v.symbol })
          else Scoped.find o' k' s.accounts)
  debited o v s t o' k' h =
      let (from, b, found, _, e, t_is) = sub_balance-ok lib o v s t h in
      let (sym_b, sym_v, exact, _) = laws.minus_ok from v b e in
      rw (t_is, found, Scoped.find-set o v.symbol.code o' k' b s.accounts) (ground arith)

  credited :
      (o : ℕ) (v : Asset) (s t : Token) (o' k' : ℕ)
      → add_balance lib o v s ≡ ok t
      → Scoped.find o' k' t.accounts ≡ (
          if o == o' && v.symbol.code == k'
          then some
              (record { amount = balance_of o v.symbol.code s +ℤ v.amount; symbol = v.symbol })
          else Scoped.find o' k' s.accounts)
  unfolding credit
  credited o v s t o' k' h =
      let (b, e, t_is) = add_balance-ok lib o v s t h in
      elim (Option-cases (Scoped.find o v.symbol.code s.accounts)) [
        | inl fresh ↦
            let same : credit lib none v ≡ ok b = rw fresh at e in
            rw (t_is, fresh, Scoped.find-set o v.symbol.code o' k' b s.accounts, zero-+ℤ v.amount)
              (ground arith)
        | inr (to, found) ↦
            let (sym_b, sym_v, exact, _) = laws.plus_ok to v b (rw found at e) in
            rw (t_is, found, Scoped.find-set o v.symbol.code o' k' b s.accounts) (ground arith)
      ]

  -- A transfer that succeeds takes the quantity from the sender's row and adds it to the
  -- receiver's, which it makes where there is none. Every other row and all supplies stay.
  pub transfer_rows :
      (c : Chain) (from to : ℕ) (q : Asset) (memo : ℕ) (s t : Token) (o k : ℕ)
      → transfer lib c from to q memo s ≡ ok t
      → (Scoped.find o k t.accounts ≡ (
          if to == o && q.symbol.code == k
          then some
              (record { amount = balance_of to q.symbol.code s +ℤ q.amount; symbol = q.symbol })
          else if from == o && q.symbol.code == k
          then some
              (record { amount = balance_of from q.symbol.code s -ℤ q.amount; symbol = q.symbol })
          else Scoped.find o k s.accounts))
        × (t.stats ≡ s.stats)
  transfer_rows c from to q memo s t o k h =
      let (st, mid, _, distinct, _, _, _, _, _, _, e1, e2) =
        transfer-ok lib c from to q memo s t h in
      let (_, _, _, _, _, mid_is) = sub_balance-ok lib from q s mid e1 in
      let (_, _, t_is) = add_balance-ok lib to q mid t e2 in
      let k' = q.symbol.code in
      let other : Scoped.find to k' mid.accounts ≡ Scoped.find to k' s.accounts =
        ground (arith, debited from q s mid to k' e1) in
      (rw (credited to q mid t o k e2, other, debited from q s mid o k e1), rw (t_is, mid_is))

  -- A debit that the row covers goes through.
  debit_succeeds :
      (o : ℕ) (v : Asset) (st : CurrencyStats) (s : Token)
      → IsValid s
      → Table.find v.symbol.code s.stats ≡ some st
      → v.symbol ≡ st.supply.symbol
      → pos 0 <ℤ v.amount
      → v.amount ≤ℤ balance_of o v.symbol.code s
      → (t : Token) × (sub_balance lib o v s ≡ ok t)
  unfolding sub_balance
  debit_succeeds o v st s valid stat typed positive enough =
      elim (Option-cases (Scoped.find o v.symbol.code s.accounts)) [
        | inl missing ↦ absurd (let none_left = rw missing at enough in omega arith)
        | inr (from, found) ↦
            let k = v.symbol.code in
            let (st', stat', typed') = valid.rows.typed o k from found in
            let n = valid.sane k st stat in
            let backed : circulating k s ≡ st.supply.amount = valid.backed k ∙ ap supply_of stat in
            let below = find-le-sum_key amount_of o k from s.accounts valid.rows.nonneg found in
            let enough' : v.amount ≤ℤ from.amount = rw found at enough in
            let range : InRange (from.amount -ℤ v.amount) =
              omega (int_laws, parts_of_eq backed, n.ceiling, n.cap) in
            (
              record s {
                accounts =
                    Scoped.set o k
                      (record { amount = from.amount -ℤ v.amount; symbol = from.symbol })
                      s.accounts;
              },
              ground (arith, laws.minus_exact from v (ground arith) range),
            )
      ]

  -- A credit that the maximum supply leaves room for goes through.
  credit_succeeds :
      (o : ℕ) (v : Asset) (s : Token)
      → ((a : Asset)
          → Scoped.find o v.symbol.code s.accounts ≡ some a
          → (a.symbol ≡ v.symbol) × InRange (a.amount +ℤ v.amount))
      → (t : Token) × (add_balance lib o v s ≡ ok t)
  unfolding add_balance credit
  credit_succeeds o v s fits = elim (Option-cases (Scoped.find o v.symbol.code s.accounts)) [
    | inl fresh ↦ (record s { accounts = Scoped.set o v.symbol.code v s.accounts }, ground arith)
    | inr (to, found) ↦
        let (same, range) = fits to found in
        (
          record s {
            accounts =
                Scoped.set o v.symbol.code
                  (record { amount = to.amount +ℤ v.amount; symbol = to.symbol }) s.accounts;
          },
          ground (arith, laws.plus_exact to v (ground arith) range),
        )
  ]

  -- In well-formed tables a transfer between two accounts goes through whenever its guards pass and
  -- the sender holds the quantity: neither the debit nor the credit can leave the range of an asset.
  pub transfer_succeeds :
      (c : Chain) (from to : ℕ) (q : Asset) (memo : ℕ) (s : Token) (st : CurrencyStats)
      → IsValid s
      → Table.find q.symbol.code s.stats ≡ some st
      → q.symbol ≡ st.supply.symbol
      → from ≢ to
      → c.has_auth from ≡ true
      → c.is_account to ≡ true
      → lib.is_valid q ≡ true
      → pos 0 <ℤ q.amount
      → memo ≤ 256
      → q.amount ≤ℤ balance_of from q.symbol.code s
      → (t : Token) × (transfer lib c from to q memo s ≡ ok t)
  unfolding transfer
  transfer_succeeds c from to q memo s st v stat typed distinct auth exists valid positive short
        enough =
      let k = q.symbol.code in
      let (mid, e1) = debit_succeeds from q st s v stat typed positive enough in
      let (r1, stats1, sum1) = sub_balance-Rows lib laws from q s mid v.rows e1 in
      let n = v.sane k st stat in
      let backed : circulating k s ≡ st.supply.amount = v.backed k ∙ ap supply_of stat in
      let self_key : at_key k q ≡ q.amount = ground arith in
      let room : circulating k mid +ℤ q.amount ≡ st.supply.amount =
        ap (◌+ℤ◌ (circulating k mid)) (sym self_key) ∙ sum1 k ∙ backed in
      let fits : (a : Asset)
          → Scoped.find to k mid.accounts ≡ some a
          → (a.symbol ≡ q.symbol) × InRange (a.amount +ℤ q.amount) =
        λ a f. (
          same_symbols a k mid (rw stats1 stat) (r1.typed to k a f),
          omega (
            int_laws,
            parts_of_eq room,
            n.ceiling,
            n.cap,
            find-le-sum_key amount_of to k a mid.accounts r1.nonneg f,
            find_nonneg amount_of to k a mid.accounts r1.nonneg f,
          ),
        ) in
      let (t, e2) = credit_succeeds to q mid fits in (t, ground arith)
    where
      same_symbols :
          (a : Asset) (k : ℕ) (mid : Token)
          → Table.find k mid.stats ≡ some st
          → ((st' : CurrencyStats) × (Table.find k mid.stats ≡ some st')
              × (a.symbol ≡ st'.supply.symbol))
          → a.symbol ≡ q.symbol
      same_symbols a k mid f (st', f', g) = ground arith

-- ===== src/Token/Rows.antt =====
-- The well-formedness of the balance rows of eosio.token, and the sum of the balances, under the
-- two helpers `sub_balance` and `add_balance`.
use wax_system_contracts.Prelude.{
  ℕ, ◌≡◌, refl, sym, ◌&&◌, none, some, ok, ◌==◌, arith, if◌then◌else◌, Option-cases, Bool-cases,
  inl, inr, ◌∙◌,
}
use wax_system_contracts.Prelude.Int.{ℤ, pos, ◌+ℤ◌, ◌-ℤ◌, ◌≤ℤ◌, int_laws, parts_of_eq}
use wax_system_contracts.Prelude.Table
use wax_system_contracts.Prelude.Scoped
use wax_system_contracts.Prelude.Scoped.Sum.{
  IsUnique, IsNonneg, sum_key, set-IsUnique, set-IsNonneg, sum_key-set_new, sum_key-set_old,
  find_nonneg,
}
use wax_system_contracts.Asset.{Asset, AssetLib, AssetLaws}
use wax_system_contracts.Token.{Token, CurrencyStats, sub_balance, add_balance, credit}
use wax_system_contracts.Token.Effects.{sub_balance-ok, add_balance-ok}

abbrev pub amount_of : Asset → ℤ
amount_of a = a.amount

-- What the balances of one token come to.
abbrev pub circulating : ℕ → Token → ℤ
circulating k s = sum_key amount_of k s.accounts

-- One row for each owner and token, none below zero, each of a token that exists and in its symbol.
pub record Rows (s : Token) : Type 0 where
  pub unique : IsUnique s.accounts
  pub nonneg : IsNonneg amount_of s.accounts
  pub typed :
      (o k : ℕ) (a : Asset)
      → Scoped.find o k s.accounts ≡ some a
      → (st : CurrencyStats) × (Table.find k s.stats ≡ some st) × (a.symbol ≡ st.supply.symbol)

pub set_row-Rows :
    (s : Token) (o k : ℕ) (b : Asset) (st : CurrencyStats)
    → Rows s
    → pos 0 ≤ℤ b.amount
    → Table.find k s.stats ≡ some st
    → b.symbol ≡ st.supply.symbol
    → Rows (record s { accounts = Scoped.set o k b s.accounts })
set_row-Rows s o k b st r n found e = record {
  unique = set-IsUnique o k b s.accounts r.unique;
  nonneg = set-IsNonneg amount_of o k b s.accounts r.nonneg n;
  typed = λ o' k' a h. go o' k' a (sym (Scoped.find-set o k o' k' b s.accounts) ∙ h);
}
  where
    go :
        (o' k' : ℕ) (a : Asset)
        → (if o == o' && k == k' then some b else Scoped.find o' k' s.accounts) ≡ some a
        → (st' : CurrencyStats) × (Table.find k' s.stats ≡ some st')
          × (a.symbol ≡ st'.supply.symbol)
    go o' k' a h = elim (Bool-cases (o == o' && k == k')) [
      | inl hit ↦ (st, ground arith, ground arith)
      | inr miss ↦ r.typed o' k' a (rw miss at h)
    ]

pub set_stats-Rows :
    (s : Token) (k : ℕ) (old new : CurrencyStats)
    → Rows s
    → Table.find k s.stats ≡ some old
    → new.supply.symbol ≡ old.supply.symbol
    → Rows (record s { stats = Table.set k new s.stats })
set_stats-Rows s k old new r found e = record {
  unique = r.unique;
  nonneg = r.nonneg;
  typed = λ o' k' a h. go o' k' a (r.typed o' k' a h);
}
  where
    go :
        (o' k' : ℕ) (a : Asset)
        → ((st : CurrencyStats) × (Table.find k' s.stats ≡ some st) × (a.symbol ≡ st.supply.symbol))
        → (st : CurrencyStats) × (Table.find k' (Table.set k new s.stats) ≡ some st)
          × (a.symbol ≡ st.supply.symbol)
    go o' k' a (st, f, g) = elim (Bool-cases (k == k')) [
      | inl hit ↦ (new, rw (Table.find-set k k' new s.stats) (rw hit), ground arith)
      | inr miss ↦ (st, rw (Table.find-set k k' new s.stats) (rw miss f), g)
    ]

abbrev pub at_key : ℕ → Asset → ℤ
at_key j v = if v.symbol.code == j then v.amount else pos 0

module _ (lib : AssetLib) (laws : AssetLaws lib) where
  -- A debit keeps the rows in order and takes its amount from the sum of its token alone.
  pub sub_balance-Rows :
      (o : ℕ) (v : Asset) (s t : Token)
      → Rows s
      → sub_balance lib o v s ≡ ok t
      → Rows t × (t.stats ≡ s.stats) × ((j : ℕ) → circulating j t +ℤ at_key j v ≡ circulating j s)
  sub_balance-Rows o v s t r h =
      let (from, b, found, enough, e, t_is) = sub_balance-ok lib o v s t h in
      let (sym_b, sym_v, exact, in_range) = laws.minus_ok from v b e in
      let (st, stat, typed) = r.typed o v.symbol.code from found in
      rw t_is (
        set_row-Rows s o v.symbol.code b st r (omega (int_laws, parts_of_eq exact)) stat
            (sym_b ∙ typed),
        refl,
        λ j.
            taken j from b exact
              (sum_key-set_old amount_of j o v.symbol.code b from s.accounts found),
      )
    where
      taken :
          (j : ℕ) (from b : Asset)
          → b.amount ≡ from.amount -ℤ v.amount
          → sum_key amount_of j (Scoped.set o v.symbol.code b s.accounts)
              +ℤ (if v.symbol.code == j then from.amount else pos 0)
            ≡ circulating j s +ℤ (if v.symbol.code == j then b.amount else pos 0)
          → sum_key amount_of j (Scoped.set o v.symbol.code b s.accounts) +ℤ at_key j v
            ≡ circulating j s
      taken j from b exact h = elim (Bool-cases (v.symbol.code == j)) [
        | inl hit ↦ rw hit (omega (int_laws, parts_of_eq exact, parts_of_eq (rw hit at h)))
        | inr miss ↦ rw miss (omega (int_laws, parts_of_eq (rw miss at h)))
      ]

  -- A credit of a token that exists keeps the rows in order and adds its amount to the sum.
  pub add_balance-Rows :
      (o : ℕ) (v : Asset) (st : CurrencyStats) (s t : Token)
      → Rows s
      → pos 0 ≤ℤ v.amount
      → Table.find v.symbol.code s.stats ≡ some st
      → v.symbol ≡ st.supply.symbol
      → add_balance lib o v s ≡ ok t
      → Rows t × (t.stats ≡ s.stats) × ((j : ℕ) → circulating j t ≡ circulating j s +ℤ at_key j v)
  unfolding credit
  add_balance-Rows o v st s t r n stat typed h =
      let (b, e, t_is) = add_balance-ok lib o v s t h in
      elim (Option-cases (Scoped.find o v.symbol.code s.accounts)) [
        | inl fresh ↦
            let same : b ≡ v = opened b fresh e in
            rw (t_is, same)
              (set_row-Rows s o v.symbol.code v st r n stat typed, refl, sum_new fresh)
        | inr (to, found) ↦
            let (sym_b, sym_v, exact, _) = laws.plus_ok to v b (joined b to found e) in
            rw t_is (
              set_row-Rows s o v.symbol.code b st r
                  (omega (
                    int_laws,
                    parts_of_eq exact,
                    find_nonneg amount_of o v.symbol.code to s.accounts r.nonneg found,
                  ))
                  stat (sym_b ∙ sym sym_v ∙ typed),
              refl,
              λ j.
                  added j to b exact
                    (sum_key-set_old amount_of j o v.symbol.code b to s.accounts found),
            )
      ]
    where
      opened :
          (b : Asset)
          → Scoped.find o v.symbol.code s.accounts ≡ none
          → credit lib (Scoped.find o v.symbol.code s.accounts) v ≡ ok b
          → b ≡ v
      opened b fresh e = let e' = rw fresh at e in ground arith

      joined :
          (b to : Asset)
          → Scoped.find o v.symbol.code s.accounts ≡ some to
          → credit lib (Scoped.find o v.symbol.code s.accounts) v ≡ ok b
          → lib.plus to v ≡ ok b
      joined b to found e = rw found at e

      sum_new :
          Scoped.find o v.symbol.code s.accounts ≡ none
          → (j : ℕ)
          → sum_key amount_of j (Scoped.set o v.symbol.code v s.accounts)
            ≡ circulating j s +ℤ at_key j v
      sum_new fresh j = sum_key-set_new amount_of j o v.symbol.code v s.accounts fresh

      added :
          (j : ℕ) (to b : Asset)
          → b.amount ≡ to.amount +ℤ v.amount
          → sum_key amount_of j (Scoped.set o v.symbol.code b s.accounts)
              +ℤ (if v.symbol.code == j then to.amount else pos 0)
            ≡ circulating j s +ℤ (if v.symbol.code == j then b.amount else pos 0)
          → sum_key amount_of j (Scoped.set o v.symbol.code b s.accounts)
            ≡ circulating j s +ℤ at_key j v
      added j to b exact h = elim (Bool-cases (v.symbol.code == j)) [
        | inl hit ↦ rw hit (omega (int_laws, parts_of_eq exact, parts_of_eq (rw hit at h)))
        | inr miss ↦ rw miss (omega (int_laws, parts_of_eq (rw miss at h)))
      ]

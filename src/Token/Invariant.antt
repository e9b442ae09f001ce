-- ===== src/Token/Invariant.antt =====
-- The invariant of eosio.token and its preservation by every action.
use wax_system_contracts.Prelude.{
  ℕ, ◌≡◌, refl, ap, sym, true, false, Option, none, some, ok, ◌==◌, arith, Bool-cases, inl, inr,
  ◌∙◌,
}
use wax_system_contracts.Prelude.Int.{
  ℤ, pos, ◌+ℤ◌, ◌-ℤ◌, ◌≤ℤ◌, int_laws, parts_of_eq, wrap64, wrap64_exact,
}
use wax_system_contracts.Prelude.Table
use wax_system_contracts.Prelude.Scoped
use wax_system_contracts.Prelude.Scoped.Sum.{find-le-sum_key}
use wax_system_contracts.Asset.{Asset, AssetLib, AssetLaws, Chain, max_amount}
use wax_system_contracts.Token.{Token, CurrencyStats, create, issue, retire, transfer}
use wax_system_contracts.Token.Effects.{sub_balance-ok, transfer-ok, issue-ok, retire-ok}
use wax_system_contracts.Token.Rows.{
  amount_of, circulating, Rows, set_stats-Rows, sub_balance-Rows, add_balance-Rows,
}

abbrev pub supply_of : Option CurrencyStats → ℤ
supply_of none = pos 0
supply_of (some st) = st.supply.amount

-- The supply lies between zero and the maximum, and the maximum in the range of an asset.
pub record Sane (k : ℕ) (st : CurrencyStats) : Type 0 where
  pub keyed : st.supply.symbol.code ≡ k
  pub floor : pos 0 ≤ℤ st.supply.amount
  pub ceiling : st.supply.amount ≤ℤ st.max_supply.amount
  pub cap : st.max_supply.amount ≤ℤ pos max_amount

pub record IsValid (s : Token) : Type 0 where
  pub rows : Rows s
  -- the balances of each token come to its supply
  pub backed : (k : ℕ) → circulating k s ≡ supply_of (Table.find k s.stats)
  pub sane : (k : ℕ) (st : CurrencyStats) → Table.find k s.stats ≡ some st → Sane k st

-- A new supply on the row of an existing token.
set_stats-Sane :
    (s : Token) (k : ℕ) (new : CurrencyStats)
    → IsValid s
    → Sane k new
    → (j : ℕ) (st : CurrencyStats) → Table.find j (Table.set k new s.stats) ≡ some st
    → Sane j st
set_stats-Sane s k new v n j st h = elim (Bool-cases (k == j)) [
  | inl hit ↦ go hit (rw hit at (sym (Table.find-set k j new s.stats) ∙ h))
  | inr miss ↦ v.sane j st (rw miss at (sym (Table.find-set k j new s.stats) ∙ h))
]
  where
    go : (k == j) ≡ true → some new ≡ some st → Sane j st
    go hit e = ground arith

find-set_self :
    (k : ℕ) (new : CurrencyStats) (s : Token) → Table.find k (Table.set k new s.stats) ≡ some new
find-set_self k new s = ground (arith, Table.find-set k k new s.stats)

-- The supply of each token after one row of `stats` and the sum of its balances have changed alike.
restocked :
    (s : Token) (k j : ℕ) (old new : CurrencyStats) (before later : ℤ)
    → Table.find k s.stats ≡ some old
    → before ≡ supply_of (Table.find j s.stats)
    → ((k == j) ≡ true → later +ℤ old.supply.amount ≡ before +ℤ new.supply.amount)
    → ((k == j) ≡ false → later ≡ before)
    → later ≡ supply_of (Table.find j (Table.set k new s.stats))
restocked s k j old new before later found b on off = elim (Bool-cases (k == j)) [
  | inl hit ↦
      let supply : before ≡ old.supply.amount = b ∙ ap supply_of (same hit) in
      rw (Table.find-set k j new s.stats, hit)
        (omega (int_laws, parts_of_eq supply, parts_of_eq (on hit)))
  | inr miss ↦ rw (Table.find-set k j new s.stats, miss) (off miss ∙ b)
]
  where
    same : (k == j) ≡ true → Table.find j s.stats ≡ some old
    same hit = ground arith

module _ (lib : AssetLib) (laws : AssetLaws lib) where
  pub transfer-IsValid :
      (c : Chain) (from to : ℕ) (q : Asset) (memo : ℕ) (s t : Token)
      → IsValid s
      → transfer lib c from to q memo s ≡ ok t
      → IsValid t
  transfer-IsValid c from to q memo s t v h =
      let (st, mid, found, _, _, _, _, positive, same, _, e1, e2) =
        transfer-ok lib c from to q memo s t h in
      let (r1, stats1, sum1) = sub_balance-Rows lib laws from q s mid v.rows e1 in
      let (r2, stats2, sum2) =
        add_balance-Rows lib laws to q st mid t r1 (omega arith) (rw stats1 found) (ground arith)
          e2 in
      record {
        rows = r2;
        backed = λ k.
            rw (stats2, stats1)
              (omega
                (int_laws, parts_of_eq (sum1 k), parts_of_eq (sum2 k), parts_of_eq (v.backed k)));
        sane = λ k st' f. v.sane k st' (rw (stats2, stats1) at f);
      }

  -- The token's new row, the maximum being respected.
  issued :
      (k : ℕ) (st : CurrencyStats) (supply q : Asset)
      → Sane k st
      → supply.symbol ≡ st.supply.symbol
      → supply.amount ≡ st.supply.amount +ℤ q.amount
      → pos 0 ≤ℤ q.amount
      → q.amount ≤ℤ wrap64 (st.max_supply.amount -ℤ st.supply.amount)
      → Sane k (record st { supply = supply })
  issued k st supply q n sym_s exact positive room =
      let exactly = wrap64_exact (st.max_supply.amount -ℤ st.supply.amount) (omega int_laws) in
      record {
        keyed = rw sym_s n.keyed;
        floor = omega (int_laws, parts_of_eq exact);
        ceiling = omega (int_laws, parts_of_eq exact, parts_of_eq exactly);
        cap = n.cap;
      }

  pub issue-IsValid :
      (c : Chain) (to : ℕ) (q : Asset) (memo : ℕ) (s t : Token)
      → IsValid s
      → issue lib c to q memo s ≡ ok t
      → IsValid t
  issue-IsValid c to q memo s t v h =
      let (st, supply, found, _, _, _, positive, same, room, e1, e2) =
        issue-ok lib c to q memo s t h in
      let (sym_s, sym_q, exact, _) = laws.plus_ok st.supply q supply e1 in
      let k = q.symbol.code in
      let new : CurrencyStats = record st { supply = supply } in
      let s1 : Token = record s { stats = Table.set k new s.stats } in
      let (r, stats, sum) =
        add_balance-Rows lib laws st.issuer q new s1 t
          (set_stats-Rows s k st new v.rows found sym_s) (omega arith) (find-set_self k new s)
          (sym_q ∙ sym sym_s) e2 in
      let n : Sane k new =
        issued k st supply q (v.sane k st found) sym_s exact (omega arith) room in
      record {
        rows = r;
        backed = λ j. rw stats (
            restocked s k j st new (circulating j s) (circulating j t) found (v.backed j)
              (λ hit. omega (int_laws, parts_of_eq exact, parts_of_eq (rw hit at (sum j))))
              (λ miss. omega (int_laws, parts_of_eq (rw miss at (sum j)))));
        sane = λ j st' f. set_stats-Sane s k new v n j st' (rw stats at f);
      }

  -- A debit of the issuer is covered by the supply.
  covered :
      (o : ℕ) (q from : Asset) (s : Token) (st : CurrencyStats)
      → IsValid s
      → Table.find q.symbol.code s.stats ≡ some st
      → Scoped.find o q.symbol.code s.accounts ≡ some from
      → q.amount ≤ℤ from.amount
      → q.amount ≤ℤ st.supply.amount
  covered o q from s st v found row enough =
      let k = q.symbol.code in
      let backed : circulating k s ≡ st.supply.amount = v.backed k ∙ ap supply_of found in
      omega (
        int_laws,
        parts_of_eq backed,
        find-le-sum_key amount_of o k from s.accounts v.rows.nonneg row,
      )

  pub retire-IsValid :
      (c : Chain) (q : Asset) (memo : ℕ) (s t : Token)
      → IsValid s
      → retire lib c q memo s ≡ ok t
      → IsValid t
  retire-IsValid c q memo s t v h =
      let (st, supply, found, _, _, positive, same, e1, e2) = retire-ok lib c q memo s t h in
      let (sym_s, sym_q, exact, _) = laws.minus_ok st.supply q supply e1 in
      let k = q.symbol.code in
      let new : CurrencyStats = record st { supply = supply } in
      let s1 : Token = record s { stats = Table.set k new s.stats } in
      let (r, stats, sum) =
        sub_balance-Rows lib laws st.issuer q s1 t (set_stats-Rows s k st new v.rows found sym_s)
          e2 in
      let (from, _, row, enough, _, _) = sub_balance-ok lib st.issuer q s1 t e2 in
      let old = v.sane k st found in
      let n : Sane k new = record {
        keyed = rw sym_s old.keyed;
        floor =
            omega (int_laws, parts_of_eq exact, covered st.issuer q from s st v found row enough);
        ceiling = omega (int_laws, parts_of_eq exact);
        cap = old.cap;
      } in
      record {
        rows = r;
        backed = λ j. rw stats (
            restocked s k j st new (circulating j s) (circulating j t) found (v.backed j)
              (λ hit. omega (int_laws, parts_of_eq exact, parts_of_eq (rw hit at (sum j))))
              (λ miss. omega (int_laws, parts_of_eq (rw miss at (sum j)))));
        sane = λ j st' f. set_stats-Sane s k new v n j st' (rw stats at f);
      }

  pub create-IsValid :
      (self : ℕ) (c : Chain) (issuer : ℕ) (m : Asset) (s t : Token)
      → IsValid s
      → create lib self c issuer m s ≡ ok t
      → IsValid t
  unfolding create
  create-IsValid self c issuer m s t v h =
      let k = m.symbol.code in
      let zero_supply : Asset = record { amount = pos 0; symbol = m.symbol } in
      let new : CurrencyStats = record { supply = zero_supply; max_supply = m; issuer = issuer } in
      let fresh : Table.find k s.stats ≡ none = ground arith in
      let n : Sane k new = record {
        keyed = refl;
        floor = omega arith;
        ceiling = ground arith;
        cap = ground (arith, laws.is_valid_range m);
      } in
      let t_is : t ≡ record s { stats = Table.set k new s.stats } = ground arith in
      rw t_is (record {
        rows = record {
          unique = v.rows.unique;
          nonneg = v.rows.nonneg;
          typed = λ o j a f. later k j a new fresh (v.rows.typed o j a f);
        };
        backed = λ j. unstocked k j new fresh refl (v.backed j);
        sane = set_stats-Sane s k new v n;
      })
    where
      later :
          (k j : ℕ) (a : Asset) (new : CurrencyStats)
          → Table.find k s.stats ≡ none
          → ((st : CurrencyStats) × (Table.find j s.stats ≡ some st)
              × (a.symbol ≡ st.supply.symbol))
          → (st : CurrencyStats) × (Table.find j (Table.set k new s.stats) ≡ some st)
            × (a.symbol ≡ st.supply.symbol)
      later k j a new fresh (st, f, g) = (st, ground (arith, Table.find-set k j new s.stats), g)

      unstocked :
          (k j : ℕ) (new : CurrencyStats)
          → Table.find k s.stats ≡ none
          → new.supply.amount ≡ pos 0
          → circulating j s ≡ supply_of (Table.find j s.stats)
          → circulating j s ≡ supply_of (Table.find j (Table.set k new s.stats))
      unstocked k j new fresh empty b = ground (arith, Table.find-set k j new s.stats)

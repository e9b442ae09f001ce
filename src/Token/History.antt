-- ===== src/Token/History.antt =====
-- The remaining actions of eosio.token, and histories of actions from the empty tables.
use wax_system_contracts.Prelude.{
  ℕ, ◌≡◌, refl, ap, none, some, ok, err, ◌==◌, arith, if◌then◌else◌, Option-cases, Bool-cases,
  Result-cases, inl, inr, ◌∙◌, List, [], ◌∷◌, after, subst, ◌⊎◌, String,
}
use wax_system_contracts.Prelude.Int.{ℤ, pos, ◌+ℤ◌, ◌≤ℤ◌, int_laws, parts_of_eq}
use wax_system_contracts.Prelude.Table
use wax_system_contracts.Prelude.Scoped
use wax_system_contracts.Prelude.Scoped.Sum.{
  sum_key, sum_key-set_new, sum_key-erase, erase-IsUnique, erase-IsNonneg,
}
use wax_system_contracts.Asset.{Symbol, Asset, AssetLib, AssetLaws, Chain}
use wax_system_contracts.Token.{
  Token, CurrencyStats, open_account, close_account, Op, creates, issues, retires, transfers, opens,
  closes, apply, run,
}
use wax_system_contracts.Token.Rows.{amount_of, circulating, set_row-Rows}
use wax_system_contracts.Token.Invariant.{
  IsValid, supply_of, transfer-IsValid, issue-IsValid, retire-IsValid, create-IsValid,
}

-- A row at zero is added or taken away.
opened-IsValid :
    (s : Token) (o : ℕ) (symbol : Symbol) (st : CurrencyStats)
    → IsValid s
    → Scoped.find o symbol.code s.accounts ≡ none
    → Table.find symbol.code s.stats ≡ some st
    → symbol ≡ st.supply.symbol
    → IsValid (record s {
      accounts = Scoped.set o symbol.code (record { amount = pos 0; symbol = symbol }) s.accounts;
    })
opened-IsValid s o symbol st v fresh found typed =
    let zero_row : Asset = record { amount = pos 0; symbol = symbol } in
    record {
      rows = set_row-Rows s o symbol.code zero_row st v.rows (omega arith) found typed;
      backed = λ k.
          same_sum k (sum_key-set_new amount_of k o symbol.code zero_row s.accounts fresh)
          ∙ v.backed k;
      sane = v.sane;
    }
  where
    same_sum : (k : ℕ) {x y : ℤ} → x ≡ y +ℤ (if symbol.code == k then pos 0 else pos 0) → x ≡ y
    same_sum k e = elim (Bool-cases (symbol.code == k)) [
      | inl hit ↦ omega (int_laws, parts_of_eq (rw hit at e))
      | inr miss ↦ omega (int_laws, parts_of_eq (rw miss at e))
    ]

closed-IsValid :
    (s : Token) (o k : ℕ) (balance : Asset)
    → IsValid s
    → Scoped.find o k s.accounts ≡ some balance
    → balance.amount ≡ pos 0
    → IsValid (record s { accounts = Scoped.erase o k s.accounts })
closed-IsValid s o k balance v found empty = record {
  rows = record {
    unique = erase-IsUnique o k s.accounts v.rows.unique;
    nonneg = erase-IsNonneg amount_of o k s.accounts v.rows.nonneg;
    typed = λ o' j a f. v.rows.typed o' j a (kept o' j a f);
  };
  backed = λ j.
      same_sum j (sum_key-erase amount_of j o k balance s.accounts v.rows.unique found)
      ∙ v.backed j;
  sane = v.sane;
}
  where
    kept :
        (o' j : ℕ) (a : Asset)
        → Scoped.find o' j (Scoped.erase o k s.accounts) ≡ some a
        → Scoped.find o' j s.accounts ≡ some a
    kept o' j a f = ground (arith, Scoped.find-erase o k o' j s.accounts)

    same_sum : (j : ℕ) {x y : ℤ} → x +ℤ (if k == j then balance.amount else pos 0) ≡ y → x ≡ y
    same_sum j e = elim (Bool-cases (k == j)) [
      | inl hit ↦ omega (int_laws, parts_of_eq empty, parts_of_eq (rw hit at e))
      | inr miss ↦ omega (int_laws, parts_of_eq (rw miss at e))
    ]

module _ (lib : AssetLib) (laws : AssetLaws lib) where
  open_account-IsValid :
      (c : Chain) (o : ℕ) (symbol : Symbol) (payer : ℕ) (s t : Token)
      → IsValid s
      → open_account lib c o symbol payer s ≡ ok t
      → IsValid t
  unfolding open_account
  open_account-IsValid c o symbol payer s t v h =
      elim (Option-cases (Table.find symbol.code s.stats)) [
        | inl missing ↦ absurd (ground arith)
        | inr (st, found) ↦ elim (Option-cases (Scoped.find o symbol.code s.accounts)) [
          | inl fresh ↦
              subst IsValid (ground arith)
                (opened-IsValid s o symbol st v fresh found (ground arith))
          | inr (b, row) ↦ subst IsValid (ground arith) v
        ]
      ]

  close_account-IsValid :
      (c : Chain) (o : ℕ) (symbol : Symbol) (s t : Token)
      → IsValid s
      → close_account lib c o symbol s ≡ ok t
      → IsValid t
  unfolding close_account
  close_account-IsValid c o symbol s t v h =
      elim (Option-cases (Scoped.find o symbol.code s.accounts)) [
        | inl missing ↦ absurd (ground arith)
        | inr (b, row) ↦
            subst IsValid (ground arith) (closed-IsValid s o symbol.code b v row (ground arith))
      ]

  -- Every action that succeeds keeps the tables well formed, each token's supply between zero and
  -- its maximum, and equal to the sum of the token's balances, of which none is below zero.
  pub apply-IsValid :
      (self : ℕ) (c : Chain) (op : Op) (s t : Token)
      → IsValid s
      → apply lib self c op s ≡ ok t
      → IsValid t
  unfolding apply
  apply-IsValid self c (creates issuer m) s t v h = create-IsValid lib laws self c issuer m s t v h
  apply-IsValid self c (issues to q memo) s t v h = issue-IsValid lib laws c to q memo s t v h
  apply-IsValid self c (retires q memo) s t v h = retire-IsValid lib laws c q memo s t v h
  apply-IsValid self c (transfers a b q memo) s t v h =
      transfer-IsValid lib laws c a b q memo s t v h
  apply-IsValid self c (opens o symbol payer) s t v h =
      open_account-IsValid c o symbol payer s t v h
  apply-IsValid self c (closes o symbol) s t v h = close_account-IsValid c o symbol s t v h

  pub run-IsValid :
      (self : ℕ) (ops : List (Chain × Op)) (s : Token) → IsValid s → IsValid (run lib self ops s)
  unfolding run
  run-IsValid self [] s v = v
  run-IsValid self ((c, op) ∷ ops) s v =
      run-IsValid self ops (after s (apply lib self c op s))
        (step (Result-cases (apply lib self c op s)))
    where
      step :
          ((t : Token) × (apply lib self c op s ≡ ok t))
            ⊎ ((e : String) × (apply lib self c op s ≡ err e))
          → IsValid (after s (apply lib self c op s))
      step (inl (t, e)) = rw e (apply-IsValid self c op s t v e)
      step (inr (m, e)) = rw e v

unfoldable pub empty_token : Token
empty_token = record { stats = []; accounts = [] }

pub empty_token-IsValid : IsValid empty_token
unfolding empty_token sum_key Table.find Scoped.find
empty_token-IsValid = record {
  rows = record { unique = tt; nonneg = tt; typed = λ o k a f. cc };
  backed = λ k. refl;
  sane = λ k st f. cc;
}

-- After any history of actions from the empty tables, the supply of each token that exists is the
-- sum of its balances, and lies between zero and its maximum.
pub run-backed :
    (lib : AssetLib)
    → AssetLaws lib
    → (self : ℕ) (ops : List (Chain × Op)) (k : ℕ) (st : CurrencyStats)
    → Table.find k (run lib self ops empty_token).stats ≡ some st
    → (circulating k (run lib self ops empty_token) ≡ st.supply.amount)
      × (pos 0 ≤ℤ st.supply.amount)
      × (st.supply.amount ≤ℤ st.max_supply.amount)
run-backed lib laws self ops k st found =
    let v = run-IsValid lib laws self ops empty_token empty_token-IsValid in
    let n = v.sane k st found in (v.backed k ∙ ap supply_of found, n.floor, n.ceiling)

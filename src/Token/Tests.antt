-- ===== src/Token/Tests.antt =====
-- Runs of eosio.token and its theorems at concrete inputs.
use wax_system_contracts.Prelude.{ℕ, ◌≡◌, refl, true, some, ok, arith, List, [], ◌∷◌}
use wax_system_contracts.Prelude.Int.{pos, ◌≤ℤ◌, ◌+ℤ◌, ◌-ℤ◌, wrap64}
use wax_system_contracts.Prelude.Table
use wax_system_contracts.Prelude.Scoped
use wax_system_contracts.Asset.{Symbol, Asset, Chain}
use wax_system_contracts.Asset.Sample.{sample_lib, sample_laws}
use wax_system_contracts.Token.{
  Token, CurrencyStats, Op, creates, issues, transfers, apply, run, transfer, create, issue, credit,
  add_balance, sub_balance,
}
use wax_system_contracts.Token.Rows.{circulating}
use wax_system_contracts.Token.Invariant.{IsValid}
use wax_system_contracts.Token.History.{
  apply-IsValid, run-backed, empty_token, run-IsValid, empty_token-IsValid,
}
use wax_system_contracts.Token.Transfer.{transfer_rows, transfer_succeeds}

abbrev wax : Symbol
wax = record { code = 7; precision = 8 }

abbrev coins : ℕ → Asset
coins n = record { amount = pos n; symbol = wax }

-- A chain on which everybody signs and every account exists.
abbrev anyone : Chain
anyone = record {
  has_auth = λ n. true;
  is_account = λ n. true;
  has_permission = λ a p. true;
  now = 0;
  now_sec = 0;
}

abbrev stats : CurrencyStats
stats = record { supply = coins 90; max_supply = coins 100; issuer = 1 }

abbrev history : List (Chain × Op)
history =
    (anyone, creates 1 (coins 100))
    ∷ (anyone, issues 1 (coins 90) 0)
    ∷ (anyone, transfers 1 2 (coins 30) 0)
    ∷ (anyone, issues 1 (coins 11) 0)
    ∷ []

abbrev settled : Token
settled = record { stats = (7, stats) ∷ []; accounts = (1, 7, coins 60) ∷ (2, 7, coins 30) ∷ [] }

abbrev paid : Token
paid = record { stats = (7, stats) ∷ []; accounts = (1, 7, coins 55) ∷ (2, 7, coins 35) ∷ [] }

-- The last issue exceeds the maximum supply and leaves no trace.
history_runs : run sample_lib 9 history empty_token ≡ settled
unfolding run apply create issue transfer add_balance sub_balance credit empty_token sample_lib
    Table.find Table.set Scoped.find Scoped.set ◌+ℤ◌ ◌-ℤ◌ wrap64
history_runs = refl

settled-IsValid : IsValid settled
settled-IsValid =
    rw history_runs at
      (run-IsValid sample_lib sample_laws 9 history empty_token empty_token-IsValid)

pays : transfer sample_lib anyone 1 2 (coins 5) 0 settled ≡ ok paid
unfolding transfer add_balance sub_balance credit sample_lib Table.find Scoped.find Scoped.set ◌+ℤ◌
    ◌-ℤ◌
pays = refl

apply-IsValid_example : IsValid paid
unfolding apply
apply-IsValid_example =
    apply-IsValid sample_lib sample_laws 9 anyone (transfers 1 2 (coins 5) 0) settled paid
      settled-IsValid pays

run-backed_example :
    (circulating 7 (run sample_lib 9 history empty_token) ≡ pos 90)
    × (pos 0 ≤ℤ pos 90)
    × (pos 90 ≤ℤ pos 100)
unfolding Table.find
run-backed_example = run-backed sample_lib sample_laws 9 history 7 stats (rw history_runs refl)

transfer_rows_example :
    (Scoped.find 2 7 paid.accounts ≡ some (record { amount = pos 30 +ℤ pos 5; symbol = wax }))
    × (paid.stats ≡ settled.stats)
unfolding Scoped.find
transfer_rows_example =
    transfer_rows sample_lib sample_laws anyone 1 2 (coins 5) 0 settled paid 2 7 pays

transfer_succeeds_example :
    (t : Token) × (transfer sample_lib anyone 1 2 (coins 5) 0 settled ≡ ok t)
unfolding Scoped.find Table.find sample_lib
transfer_succeeds_example =
    transfer_succeeds sample_lib sample_laws anyone 1 2 (coins 5) 0 settled stats settled-IsValid
      refl refl (omega arith) refl refl refl (omega arith) (omega arith) (omega arith)

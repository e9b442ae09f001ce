-- ===== src/Names/Books.antt =====
-- The books of the auctions over any history.
use wax_system_contracts.Prelude.{ℕ, ◌≡◌, false, ◌==◌, inl, inr, List, [], ◌∷◌, Result-cases}
use wax_system_contracts.Prelude.Int.{ℤ, pos, ◌+ℤ◌, ◌-ℤ◌, int_laws, parts_of_eq}
use wax_system_contracts.Prelude.Scoped.Sum.{sum_key}
use wax_system_contracts.Asset.{AssetLib, AssetLaws, Chain}
use wax_system_contracts.Names.{NameLib, Names}
use wax_system_contracts.Prelude.Scoped.Total.{total}
use wax_system_contracts.Names.Bids.{stake, IsKeyed}
use wax_system_contracts.Names.Ledger.{Op, net, apply, spent, run, apply_balances, plus_zero}

abbrev pub no_auctions : ℕ → ℕ → ℕ → Names
no_auctions slot update time = record {
  bids = [];
  refunds = [];
  last_name_close = slot;
  last_producer_schedule_update = update;
  thresh_activated_stake_time = time;
}

nothing : (who slot update time : ℕ) → stake who (no_auctions slot update time) ≡ pos 0
unfolding stake total sum_key
nothing who slot update time = plus_zero (pos 0)

settled : (t s paid got cost : ℤ) → t +ℤ cost ≡ s +ℤ got → s ≡ paid → t ≡ (paid +ℤ got) -ℤ cost
settled t s paid got cost e h = omega (int_laws, parts_of_eq e, parts_of_eq h)

module _ (lib : AssetLib) (laws : AssetLaws lib) (names : NameLib) (who : ℕ) where
  run_balances :
      (ops : List (Chain × Op)) (paid : ℤ) (s : Names)
      → (names.names_account == who) ≡ false
      → IsKeyed s
      → stake who s ≡ paid
      → stake who (run lib names who ops paid s).1 ≡ (run lib names who ops paid s).0
  unfolding run
  run_balances [] paid s other keyed e = e
  run_balances ((c, op) ∷ ops) paid s other keyed e = elim (Result-cases (apply lib names c op s)) [
    | inr (_, failed) ↦ rw (run, failed) (run_balances ops paid s other keyed e)
    | inl ((xs, t), done) ↦
        let (keyed', moved) = apply_balances lib laws names who c op s t xs keyed other done in
        rw (run, done)
          (run_balances ops ((paid +ℤ net who xs) -ℤ spent lib names who op s) t other keyed' (
            settled (stake who t) (stake who s) paid (net who xs) (spent lib names who op s) moved
              e))
  ]

  -- After any history of the auctions from empty tables, what a bidder has paid, less what it got
  -- back and what it spent on names that it claimed, is the sum of its standing bids and its
  -- refunds.
  pub books_balance :
      (ops : List (Chain × Op)) (slot update time : ℕ)
      → (names.names_account == who) ≡ false
      → stake who (run lib names who ops (pos 0) (no_auctions slot update time)).1
        ≡ (run lib names who ops (pos 0) (no_auctions slot update time)).0
  books_balance ops slot update time other =
      run_balances ops (pos 0) (no_auctions slot update time) other (tt, tt)
        (nothing who slot update time)

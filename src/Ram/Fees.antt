-- ===== src/Ram/Fees.antt =====
-- The fee of a trade, as the comments of `buyram` and `sellram` describe it.
use wax_system_contracts.Prelude.{
  ℕ, ◌≡◌, true, some, ok, arith, inl, inr, Option-cases, Result-cases, List, [], ◌∷◌,
}
use wax_system_contracts.Prelude.Int.{ℤ, pos, ◌-ℤ◌, ◌≤ℤ◌, ◌<ℤ◌, wrap64}
use wax_system_contracts.Asset.{Asset, AssetLib, Chain, Transfer}
use wax_system_contracts.Double.{Double}
use wax_system_contracts.Ram.{Ram, RamLib}
use wax_system_contracts.Ram.Exchange.{direct_convert}
use wax_system_contracts.Ram.Supply.{update_ram_supply}
use wax_system_contracts.Ram.Trade.{sellram, fee_of, sends_if_positive}
use wax_system_contracts.Ram.Bytes.{write_ram-userres}
use wax_system_contracts.Prelude.Scoped
use wax_system_contracts.Resources.{UserResources, row_of}
use wax_system_contracts.Resources.Grants.{sellable, take_bytes}

-- The two transfers of a purchase.
abbrev pub payments : {D : Type 0} → RamLib D → ℕ → Asset → ℕ → ℕ → List Transfer
payments names payer quant cost fee =
    record { from = payer; to = names.ram_account; quantity = record quant { amount = pos cost } }
    ∷ record {
      from = payer;
      to = names.ramfee_account;
      quantity = record quant { amount = pos fee };
    }
    ∷ []

update_ram_supply-resources :
    {D : Type 0} (slot : ℕ) (s t : Ram D)
    → update_ram_supply slot s ≡ ok t
    → t.resources ≡ s.resources
unfolding update_ram_supply
update_ram_supply-resources slot s t h = elim (Option-cases s.market) [
  | inl missing ↦ ground arith
  | inr (m, found) ↦ ground arith
]

module _ {D : Type 0} (lib : AssetLib) (real : Double D) (names : RamLib D) where
  -- A sale that goes through was signed by the account and is of a positive number of bytes that the
  -- account owns. It pays the account at least two units from the RAM account, takes the bytes out of
  -- the account's row, and touches no other row.
  pub sellram_sound :
      (c : Chain) (slot account : ℕ) (bytes : ℤ) (s t : Ram D) (xs : List Transfer)
      → sellram lib real names c slot account bytes s ≡ ok (xs, t)
      → (row : UserResources) × (tokens : Asset) × (rest : List Transfer) × (row_of account
            s.resources
          ≡ some row)
        × (c.has_auth account ≡ true)
        × (pos 0 <ℤ bytes)
        × (bytes ≤ℤ row.ram_bytes)
        × (pos 1 <ℤ tokens.amount)
        × (xs ≡ record { from = names.ram_account; to = account; quantity = tokens } ∷ rest)
        × (t.resources.userres
            ≡ Scoped.set account account
                (record row { ram_bytes = wrap64 (row.ram_bytes -ℤ bytes) })
                s.resources.userres)
  unfolding sellram sellable take_bytes
  sellram_sound c slot account bytes s₀ t xs h = elim (Result-cases (update_ram_supply slot s₀)) [
    | inr (_, e) ↦ absurd (ground arith)
    | inl (s, e) ↦ elim (Option-cases s.market) [
      | inl missing ↦ absurd (ground arith)
      | inr (m, found) ↦ elim (Option-cases (row_of account s.resources)) [
        | inl no_row ↦ absurd (ground arith)
        | inr (row, has_row) ↦
            let offer : Asset = record { amount = bytes; symbol = names.ram_symbol } in
            let same = update_ram_supply-resources slot s₀ s e in
            elim (Result-cases (direct_convert lib real offer m.quote.balance.symbol m)) [
              | inr (_, e2) ↦ absurd (ground arith)
              | inl ((tokens, m'), e2) ↦
                  let fee : Asset = record {
                    amount = fee_of tokens.amount;
                    symbol = m.quote.balance.symbol;
                  } in
                  let r' : UserResources = record row {
                    ram_bytes = wrap64 (row.ram_bytes -ℤ bytes);
                  } in
                  (
                    row,
                    tokens,
                    sends_if_positive account names.ramfee_account fee,
                    ground arith,
                    ground arith,
                    ground arith,
                    ground arith,
                    ground arith,
                    ground arith,
                    ground (arith, write_ram-userres account r' s.resources),
                  )
            ]
      ]
    ]
  ]

-- ===== src/Ram/Steps.antt =====
-- Every action on RAM keeps all bytes accounted for.
use wax_system_contracts.Prelude.{
  ℕ, ◌+◌, ◌-◌, ◌^◌, ◌≡◌, refl, ap, ◌∙◌, true, some, Result, ok, ◌>>=◌, arith, inl, inr, [],
  Option-cases, Result-cases, List,
}
use wax_system_contracts.Prelude.Int.{ℤ, pos, ◌+ℤ◌, ◌-ℤ◌, wrap64}
use wax_system_contracts.Asset.{Asset, Symbol, AssetLib, AssetLaws, Chain, Transfer, same_symbol}
use wax_system_contracts.Double.{Double}
use wax_system_contracts.Resources.{row_of}
use wax_system_contracts.Resources.Grants.{add_bytes, take_bytes, sellable}
use wax_system_contracts.Ram.{Ram, RamLib}
use wax_system_contracts.Prelude.Int.Uint64.{
  to_uint64, wrap_uint64, to_uint64-add, to_uint64-sub, to_uint64-lt,
}
use wax_system_contracts.Ram.Exchange.{direct_convert, get_bancor_input}
use wax_system_contracts.Ram.Supply.{update_ram_supply, setram, setramrate, init}
use wax_system_contracts.Ram.Trade.{fee_of, buyram, buyrambytes, sellram}
use wax_system_contracts.Ram.Bytes.{add_bytes-total, take_bytes-total, bought, sold}
use wax_system_contracts.Ram.Backing.{
  IsBacked, update_ram_supply-IsBacked, setram-IsBacked, init-IsBacked,
}

-- The actions on RAM, each with the slot of its block where it reads it.
pub data Op : Type 0 where
  sets_ram : ℕ → Op
  sets_rate : ℕ → ℕ → Op
  starts : ℕ → Symbol → Asset → Op
  buys : ℕ → ℕ → ℕ → Asset → Op
  buys_bytes : ℕ → ℕ → ℕ → ℕ → Op
  sells : ℕ → ℕ → ℤ → Op

module _ {D : Type 0} (lib : AssetLib) (real : Double D) (names : RamLib D) where
  unfoldable pub apply : Chain → Op → Ram D → Result (List Transfer × Ram D)
  apply c (sets_ram max_ram_size) s = do t ← setram names c max_ram_size s; ok ([], t)
  apply c (sets_rate slot bytes) s = do t ← setramrate names c slot bytes s; ok ([], t)
  apply c (starts version core supply) s = do t ← init names c version core supply s; ok ([], t)
  apply c (buys slot payer receiver quant) s = buyram lib real names c slot payer receiver quant s
  apply c (buys_bytes slot payer receiver bytes) s =
      buyrambytes lib real names c slot payer receiver bytes s
  apply c (sells slot account bytes) s = sellram lib real names c slot account bytes s

module _ {D : Type 0} (lib : AssetLib) (laws : AssetLaws lib) (real : Double D)
    (names : RamLib D) where
  buyram-IsBacked :
      (c : Chain) (slot payer receiver : ℕ) (quant : Asset) (s t : Ram D) (xs : List Transfer)
      → IsBacked s
      → buyram lib real names c slot payer receiver quant s ≡ ok (xs, t)
      → IsBacked t
  unfolding buyram
  buyram-IsBacked c slot payer receiver quant s₀ t xs b₀ h =
      elim (Result-cases (update_ram_supply slot s₀)) [
        | inr (_, e) ↦ absurd (ground arith)
        | inl (s, e) ↦ elim (Option-cases s.market) [
          | inl missing ↦ absurd (ground arith)
          | inr (m, found) ↦
              let b = update_ram_supply-IsBacked slot s₀ s b₀ e in
              let fee = record quant { amount = fee_of quant.amount } in
              let after_fee = record quant { amount = wrap64 (quant.amount -ℤ fee.amount) } in
              elim (Result-cases (direct_convert lib real after_fee names.ram_symbol m)) [
                | inr (_, e2) ↦ absurd (ground arith)
                | inl ((bytes, m'), e2) ↦
                    let same : same_symbol after_fee.symbol m.quote.balance.symbol ≡ true =
                      ground arith in
                    let exact =
                      bought lib laws real after_fee names.ram_symbol m m' bytes same e2 in
                    let t_is : t ≡ record s {
                      market = some m';
                      total_ram_bytes_reserved =
                          wrap_uint64 (s.total_ram_bytes_reserved + to_uint64 bytes.amount);
                      total_ram_stake = wrap64 (s.total_ram_stake +ℤ after_fee.amount);
                      resources =
                          add_bytes m.quote.balance.symbol receiver bytes.amount s.resources;
                    } =
                      ground arith in
                    let before = rw found at b.for_sale in
                    rw t_is (record {
                      for_sale = omega (
                        arith,
                        before,
                        ap to_uint64 exact,
                        to_uint64-sub m.base.balance.amount bytes.amount,
                      );
                      owned = omega (
                        arith,
                        b.owned,
                        add_bytes-total m.quote.balance.symbol receiver bytes.amount s.resources,
                      );
                    })
              ]
        ]
      ]

  buyrambytes-buyram :
      (c : Chain) (slot payer receiver bytes : ℕ) (s : Ram D) (r : List Transfer × Ram D)
      → buyrambytes lib real names c slot payer receiver bytes s ≡ ok r
      → (quant : Asset) × (buyram lib real names c slot payer receiver quant s ≡ ok r)
  unfolding buyrambytes
  buyrambytes-buyram c slot payer receiver bytes s r h = elim (Option-cases s.market) [
    | inl missing ↦ absurd (ground arith)
    | inr (m, found) ↦
        let cost = get_bancor_input real m.base.balance.amount m.quote.balance.amount (pos bytes) in
        let quant : Asset = record {
          amount = real.to_int (real.over (real.of_int cost) (real.literal 995 3));
          symbol = m.quote.balance.symbol;
        } in
        (quant, ground arith)
  ]

  sellram-IsBacked :
      (c : Chain) (slot account : ℕ) (bytes : ℤ) (s t : Ram D) (xs : List Transfer)
      → IsBacked s
      → sellram lib real names c slot account bytes s ≡ ok (xs, t)
      → IsBacked t
  unfolding sellram sellable
  sellram-IsBacked c slot account bytes s₀ t xs b₀ h =
      elim (Result-cases (update_ram_supply slot s₀)) [
        | inr (_, e) ↦ absurd (ground arith)
        | inl (s, e) ↦ elim (Option-cases s.market) [
          | inl missing ↦ absurd (ground arith)
          | inr (m, found) ↦ elim (Option-cases (row_of account s.resources)) [
            | inl no_row ↦ absurd (ground arith)
            | inr (row, has_row) ↦
                let b = update_ram_supply-IsBacked slot s₀ s b₀ e in
                let offer : Asset = record { amount = bytes; symbol = names.ram_symbol } in
                elim (Result-cases (direct_convert lib real offer m.quote.balance.symbol m)) [
                  | inr (_, e2) ↦ absurd (ground arith)
                  | inl ((tokens, m'), e2) ↦
                      let exact =
                        sold lib laws real offer m.quote.balance.symbol m m' tokens refl e2 in
                      let t_is : t ≡ record s {
                        market = some m';
                        total_ram_bytes_reserved =
                            wrap_uint64 (s.total_ram_bytes_reserved + 2 ^ 64 - to_uint64 bytes);
                        total_ram_stake = wrap64 (s.total_ram_stake -ℤ tokens.amount);
                        resources = take_bytes account row bytes s.resources;
                      } =
                        ground arith in
                      let before = rw found at b.for_sale in
                      rw t_is (record {
                        for_sale = omega (
                          arith,
                          before,
                          ap to_uint64 exact,
                          to_uint64-add m.base.balance.amount bytes,
                          to_uint64-lt bytes,
                        );
                        owned = omega (
                          arith,
                          b.owned,
                          to_uint64-lt bytes,
                          take_bytes-total account row bytes s.resources has_row,
                        );
                      })
                ]
          ]
        ]
      ]

  -- Every action keeps the bytes for sale and the reserved ones together at the size of all RAM, and
  -- the reserved ones at the sum of what the accounts own; all of these are uint64_t or int64_t
  -- numbers, so that the sums are modulo 2^64.
  pub apply-IsBacked :
      (c : Chain) (op : Op) (s t : Ram D) (xs : List Transfer)
      → IsBacked s
      → apply lib real names c op s ≡ ok (xs, t)
      → IsBacked t
  unfolding apply setramrate
  apply-IsBacked c (sets_ram size) s t xs b h = elim (Result-cases (setram names c size s)) [
    | inr (_, e) ↦ absurd (ground arith)
    | inl (t', e) ↦ setram-IsBacked names c size s t b (e ∙ ground arith)
  ]
  apply-IsBacked c (sets_rate slot rate) s t xs b h =
      elim (Result-cases (update_ram_supply slot s)) [
        | inr (_, e) ↦ absurd (ground arith)
        | inl (s', e) ↦
            let b' = update_ram_supply-IsBacked slot s s' b e in
            let t_is : t ≡ record s' { new_ram_per_block = rate } = ground arith in
            rw t_is (record { for_sale = b'.for_sale; owned = b'.owned })
      ]
  apply-IsBacked c (starts version core supply) s t xs b h =
      elim (Result-cases (init names c version core supply s)) [
        | inr (_, e) ↦ absurd (ground arith)
        | inl (t', e) ↦ init-IsBacked names c version core supply s t b (e ∙ ground arith)
      ]
  apply-IsBacked c (buys slot payer receiver quant) s t xs b h =
      buyram-IsBacked c slot payer receiver quant s t xs b h
  apply-IsBacked c (buys_bytes slot payer receiver bytes) s t xs b h =
      let (quant, bought_it) = buyrambytes-buyram c slot payer receiver bytes s (xs, t) h in
      buyram-IsBacked c slot payer receiver quant s t xs b bought_it
  apply-IsBacked c (sells slot account bytes) s t xs b h =
      sellram-IsBacked c slot account bytes s t xs b h

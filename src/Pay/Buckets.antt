-- ===== src/Pay/Buckets.antt =====
-- src/producer_pay.cpp: the block reward of `onblock`, and `fill_buckets`.
use wax_system_contracts.Prelude.{
  ℕ, ◌+◌, ◌-◌, ◌%◌, ◌^◌, none, some, Result, ok, ◌>>=◌, ◌&&◌, ltb, ◌==◌, List, [], ◌∷◌, ◌++◌,
  if◌then◌else◌,
}
use wax_system_contracts.Prelude.Int.{ℤ, pos, ◌+ℤ◌, ◌-ℤ◌, ◌*ℤ◌, ltb_ℤ, quot_ℤ, wrap64}
use wax_system_contracts.Prelude.Table
use wax_system_contracts.Asset.{Asset, AssetLib, Chain, make_asset}
use wax_system_contracts.Double.{Double}
use wax_system_contracts.Token.{Token, get_supply, get_balance}
use wax_system_contracts.Pay.{Pay, PayLib, Inline, issues, sends, retires, useconds_per_year}

-- A uint32_t result.
abbrev pub wrap_uint32 : ℕ → ℕ
wrap_uint32 n = n % 2 ^ 32

abbrev pub max_with_zero : ℤ → ℤ
max_with_zero a = if ltb_ℤ (pos 0) a then a else pos 0

abbrev pub least : ℤ → ℤ → ℤ
least a b = if ltb_ℤ b a then b else a

module _ {D : Type 0} where
  -- The part of `onblock` that counts the block of a registered producer.
  unfoldable pub count_block : Chain → ℕ → Pay D → Pay D
  count_block c producer s₀ =
      if s₀.thresh_activated_stake_time == 0
      then s₀
      else let fill : ℕ =
          if s₀.last_pervote_bucket_fill == 0 then c.now else s₀.last_pervote_bucket_fill in
        let s = record s₀ { last_pervote_bucket_fill = fill } in
        elim (Table.find producer s.producers) [
          | none ↦ s
          | some p ↦ record s {
            total_unpaid_blocks = wrap_uint32 (s.total_unpaid_blocks + 1);
            producers =
                Table.set producer (record p { unpaid_blocks = wrap_uint32 (p.unpaid_blocks + 1) })
                  s.producers;
          }
        ]

module _ (lib : AssetLib) (names : PayLib) where
  -- One inline action with an amount of the core symbol.
  unfoldable pub inline : (Asset → Inline) → ℤ → Result (List Inline)
  inline action amount = do a ← make_asset lib amount names.core_symbol; ok (action a ∷ [])

  unfoldable pub inline_if_positive : (Asset → Inline) → ℤ → Result (List Inline)
  inline_if_positive action amount = if ltb_ℤ (pos 0) amount then inline action amount else ok []

  -- The inline actions of `fill_buckets`, in their order.
  unfoldable pub pay_out : ℤ → ℤ → Result (List Inline)
  pay_out distribute_tokens current_fees = do
    let self = names.self
    let fees_to_use = least distribute_tokens current_fees
    let to_per_block_pay = quot_ℤ distribute_tokens 5
    let to_voters = wrap64 (pos 2 *ℤ to_per_block_pay)
    let to_savings = wrap64 (distribute_tokens -ℤ wrap64 (to_voters +ℤ to_per_block_pay))
    let burn_fees = max_with_zero (wrap64 (current_fees -ℤ fees_to_use))
    issued ← inline_if_positive (issues self) (wrap64 (distribute_tokens -ℤ fees_to_use))
    collected ← inline_if_positive (sends names.fees_account self) fees_to_use
    saved ← inline (sends self names.saving_account) to_savings
    voters ← inline (sends self names.voters_account) to_voters
    bpay ← inline (sends self names.bpay_account) to_per_block_pay
    taken ← inline_if_positive (sends names.fees_account self) burn_fees
    burned ← inline_if_positive retires burn_fees
    ok (issued ++ (collected ++ (saved ++ (voters ++ (bpay ++ (taken ++ burned))))))

module _ {D : Type 0} (real : Double D) where
  unfoldable pub distribution : ℤ → ℕ → ℤ
  distribution supply usecs = real.to_int (
      real.over
        (real.times (real.times (real.literal 4879 5) (real.of_int supply))
          (real.of_int (pos usecs)))
        (real.of_int (pos useconds_per_year)))

module _ {D : Type 0} (lib : AssetLib) (real : Double D) (names : PayLib) where
  unfoldable pub fill_buckets : Chain → Token → Pay D → Result (List Inline × Pay D)
  fill_buckets c tokens s = do
    token_supply ← get_supply names.core_symbol.code tokens
    if ltb s.last_pervote_bucket_fill c.now && ltb 0 s.last_pervote_bucket_fill
        then (do
          fees ← get_balance names.fees_account names.core_symbol.code tokens
          let d = distribution real token_supply.amount (c.now - s.last_pervote_bucket_fill)
          xs ← pay_out lib names d fees.amount
          ok (
            xs,
            record s {
              perblock_bucket = wrap64 (s.perblock_bucket +ℤ quot_ℤ d 5);
              voters_bucket = wrap64 (s.voters_bucket +ℤ wrap64 (pos 2 *ℤ quot_ℤ d 5));
              last_pervote_bucket_fill = c.now;
            },
          ))
        else ok ([], s)

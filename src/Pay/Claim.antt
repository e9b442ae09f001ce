-- ===== src/Pay/Claim.antt =====
-- src/producer_pay.cpp: the actions `claimrewards` and `claimgbmprod`.
use wax_system_contracts.Prelude.{
  ℕ, ◌+◌, ◌-◌, ◌*◌, ◌^◌, Bool, true, false, not, none, some, Result, ok, ◌>>=◌, ◌>>◌, check,
  or_fail, ltb, leb, ◌==◌, List, ◌++◌, if◌then◌else◌,
}
use wax_system_contracts.Prelude.Int.{ℤ, pos, ◌-ℤ◌, leb_ℤ, wrap64}
use wax_system_contracts.Prelude.Table
use wax_system_contracts.Asset.{AssetLib, Chain, require_auth}
use wax_system_contracts.Double.{Double}
use wax_system_contracts.Token.{Token}
use wax_system_contracts.Pay.{
  ProducerInfo, ProducerInfo2, Pay, PayLib, Inline, sends, useconds_per_day,
}
use wax_system_contracts.Pay.Shares.{update_total_votepay_share, update_producer_votepay_share}
use wax_system_contracts.Pay.Buckets.{fill_buckets, inline_if_positive, wrap_uint32}

module _ {D : Type 0} (real : Double D) where
  -- The part of the bucket that the blocks of the producer have earned.
  unfoldable pub block_pay : ProducerInfo D → Pay D → Result ℤ
  block_pay prod s = if s.total_unpaid_blocks == 0 then ok (pos 0) else (do
    let share = real.to_int (
        real.over
          (real.times (real.of_int s.perblock_bucket) (real.of_int (pos prod.unpaid_blocks)))
          (real.of_int (pos s.total_unpaid_blocks)))
    check (leb_ℤ (pos 0) share) "producer per block pay must be greater or equal to 0"
    ok share)

  -- The rows and totals after the pay, and the shares of the votes.
  unfoldable pub settle_claim : ℕ → ℕ → ProducerInfo D → ℤ → Pay D → Pay D
  settle_claim ct owner prod pay s =
      let prod2 = Table.find owner s.producers2 in
      let after_3days = prod.last_claim_time + 3 * useconds_per_day in
      let updated : Bool = elim prod2 [
        | none ↦ true
        | some row ↦ leb after_3days row.last_votepay_share_update
      ] in
      let row : ProducerInfo2 D = elim prod2 [
        | none ↦ record {
          owner = owner;
          votepay_share = real.literal 0 1;
          last_votepay_share_update = ct;
        }
        | some row ↦ row
      ] in
      let (share, s₁) =
        update_producer_votepay_share real owner row ct
          (if updated then real.literal 0 1 else prod.total_votes) true s in
      let s₂ = record s₁ {
        perblock_bucket = wrap64 (s₁.perblock_bucket -ℤ pay);
        total_unpaid_blocks = wrap_uint32 (s₁.total_unpaid_blocks + 2 ^ 32 - prod.unpaid_blocks);
      } in
      let s₃ =
        update_total_votepay_share real ct (real.negate share)
          (if updated then prod.total_votes else real.literal 0 1) s₂ in
      record s₃ {
        producers =
            Table.set owner (record prod { last_claim_time = ct; unpaid_blocks = 0 }) s₃.producers;
      }

module _ {D : Type 0} (lib : AssetLib) (real : Double D) (names : PayLib) where
  unfoldable pub claim_producer_rewards :
      Chain → ℕ → Bool → Token → Pay D → Result (List Inline × Pay D)
  claim_producer_rewards c owner as_gbm tokens s = do
    require_auth c owner
    prod ← or_fail (Table.find owner s.producers) "unable to find key"
    check prod.is_active "producer does not have an active key"
    check (not (s.thresh_activated_stake_time == 0))
        "cannot claim rewards until the chain is activated (at least 15% of all tokens participate in voting)"
    check (ltb (prod.last_claim_time + useconds_per_day) c.now)
        "already claimed rewards within past day"
    (filled, s₁) ← fill_buckets lib real names c tokens s
    pay ← block_pay real prod s₁
    paid ← inline_if_positive lib names (sends names.bpay_account owner) pay
    ok (filled ++ paid, settle_claim real c.now owner prod pay s₁)

  unfoldable pub claimrewards : Chain → ℕ → Token → Pay D → Result (List Inline × Pay D)
  claimrewards c owner tokens s = claim_producer_rewards c owner false tokens s

  unfoldable pub claimgbmprod : Chain → ℕ → Token → Pay D → Result (List Inline × Pay D)
  claimgbmprod c owner tokens s = claim_producer_rewards c owner true tokens s

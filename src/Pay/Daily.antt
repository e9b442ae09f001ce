-- ===== src/Pay/Daily.antt =====
-- What a claim of a producer's pay leaves behind.
use wax_system_contracts.Prelude.{
  ℕ, ◌+◌, ◌≡◌, ◌≤◌, ◌<◌, ◌∙◌, Bool, true, some, ok, err, arith, inl, inr, Option-cases,
  Result-cases, List,
}
use wax_system_contracts.Prelude.Int.{ℤ, ◌-ℤ◌, wrap64}
use wax_system_contracts.Prelude.Table
use wax_system_contracts.Asset.{AssetLib, Chain}
use wax_system_contracts.Double.{Double}
use wax_system_contracts.Token.{Token}
use wax_system_contracts.Pay.{ProducerInfo, Pay, PayLib, Inline, useconds_per_day}
use wax_system_contracts.Pay.Shares.{update_total_votepay_share, update_producer_votepay_share}
use wax_system_contracts.Pay.Buckets.{fill_buckets}
use wax_system_contracts.Pay.Claim.{block_pay, settle_claim, claim_producer_rewards}

module _ {D : Type 0} (real : Double D) where
  pub settle_claim-producers :
      (ct owner : ℕ) (prod : ProducerInfo D) (pay : ℤ) (s : Pay D)
      → ((settle_claim real ct owner prod pay s).producers
          ≡ Table.set owner (record prod { last_claim_time = ct; unpaid_blocks = 0 }) s.producers)
        × ((settle_claim real ct owner prod pay s).thresh_activated_stake_time
            ≡ s.thresh_activated_stake_time)
        × ((settle_claim real ct owner prod pay s).perblock_bucket
            ≡ wrap64 (s.perblock_bucket -ℤ pay))
  unfolding settle_claim update_total_votepay_share update_producer_votepay_share
  settle_claim-producers ct owner prod pay s = ground arith

module _ {D : Type 0} (lib : AssetLib) (real : Double D) (names : PayLib) where
  pub fill_buckets-same :
      (c : Chain) (tokens : Token) (s t : Pay D) (xs : List Inline)
      → fill_buckets lib real names c tokens s ≡ ok (xs, t)
      → (t.producers ≡ s.producers)
        × (t.thresh_activated_stake_time ≡ s.thresh_activated_stake_time)
  unfolding fill_buckets
  fill_buckets-same c tokens s t xs h = ground arith

  -- A claim that goes through was signed by an active producer, more than a day after its last claim.
  -- After it, a claim of the same producer that it signs within a day fails with the message for that.
  pub claim_once_a_day :
      (c c' : Chain) (owner : ℕ) (as_gbm again : Bool) (tokens tokens' : Token) (s t : Pay D)
      (xs : List Inline)
      → claim_producer_rewards lib real names c owner as_gbm tokens s ≡ ok (xs, t)
      → c'.has_auth owner ≡ true
      → c'.now ≤ c.now + useconds_per_day
      → (prod : ProducerInfo D) × (Table.find owner s.producers ≡ some prod)
        × (prod.is_active ≡ true)
        × (c.has_auth owner ≡ true)
        × (prod.last_claim_time + useconds_per_day < c.now)
        × (claim_producer_rewards lib real names c' owner again tokens' t
            ≡ err "already claimed rewards within past day")
  unfolding claim_producer_rewards
  claim_once_a_day c c' owner as_gbm again tokens tokens' s t xs h signed soon =
      elim (Option-cases (Table.find owner s.producers)) [
        | inl missing ↦ absurd (ground arith)
        | inr (prod, found) ↦ elim (Result-cases (fill_buckets lib real names c tokens s)) [
          | inr (_, e) ↦ absurd (ground arith)
          | inl ((filled, s'), e) ↦ elim (Result-cases (block_pay real prod s')) [
            | inr (_, e2) ↦ absurd (ground arith)
            | inl (pay, e2) ↦
                let same = fill_buckets-same c tokens s s' filled e in
                let settled = settle_claim-producers real c.now owner prod pay s' in
                let prod' : ProducerInfo D = record prod {
                  last_claim_time = c.now;
                  unpaid_blocks = 0;
                } in
                let t_is : t ≡ settle_claim real c.now owner prod pay s' = ground arith in
                let active : prod.is_active ≡ true = ground arith in
                let now_found : Table.find owner t.producers ≡ some prod' =
                  rw (t_is, settled.0)
                    (ground (arith, Table.find-set owner owner prod' s'.producers)) in
                let thresh : t.thresh_activated_stake_time ≡ s.thresh_activated_stake_time =
                  rw t_is (settled.1 ∙ same.1) in
                (
                  prod,
                  found,
                  active,
                  ground arith,
                  ground arith,
                  ground (arith, now_found, thresh, active),
                )
          ]
        ]
      ]

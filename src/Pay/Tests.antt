-- ===== src/Pay/Tests.antt =====
-- Runs of the pay of producers and its theorems at concrete inputs: producer 5 has made 5 of 10 blocks
-- and claims two days after the buckets were filled.
use wax_system_contracts.Prelude.{
  ℕ, ◌+◌, ◌*◌, ◌≡◌, ◌<◌, refl, true, false, some, ok, err, arith, List, [], ◌∷◌,
}
use wax_system_contracts.Prelude.Int.{pos, ◌+ℤ◌, ◌-ℤ◌, ◌*ℤ◌, quot_ℤ, wrap64}
use wax_system_contracts.Prelude.Table
use wax_system_contracts.Prelude.Scoped
use wax_system_contracts.Asset.{Asset, Symbol, Chain}
use wax_system_contracts.Asset.Sample.{sample_lib}
use wax_system_contracts.Double.{Double}
use wax_system_contracts.Double.Sample.{whole_numbers}
use wax_system_contracts.Token.{Token, get_supply, get_balance}
use wax_system_contracts.Pay.{ProducerInfo, Pay, PayLib, Inline, issues, sends, useconds_per_day}
use wax_system_contracts.Pay.Shares.{
  update_total_votepay_share, update_producer_votepay_share, new_votepay_share,
}
use wax_system_contracts.Pay.Buckets.{
  count_block, fill_buckets, pay_out, distribution, inline, inline_if_positive,
}
use wax_system_contracts.Pay.Claim.{claim_producer_rewards, block_pay, settle_claim}
use wax_system_contracts.Pay.Daily.{claim_once_a_day}
use wax_system_contracts.Pay.Unpaid.{IsCounted, sum_unpaid, makes_block, apply, apply-IsCounted}

abbrev wax : Symbol
wax = record { code = 7; precision = 8 }

abbrev coins : ℕ → Asset
coins n = record { amount = pos n; symbol = wax }

abbrev names : PayLib
names = record {
  core_symbol = wax;
  self = 1;
  fees_account = 2;
  saving_account = 3;
  voters_account = 4;
  bpay_account = 6;
}

abbrev at_time : ℕ → Chain
at_time now = record {
  has_auth = λ n. true;
  is_account = λ n. true;
  has_permission = λ a p. true;
  now = now;
  now_sec = 0;
}

-- Numbers in which a literal is its digits, so that a distribution is not rounded to zero.
abbrev digits : Double ℕ
digits = record whole_numbers { literal = λ digits decimals. digits }

abbrev tokens : Token
tokens = record {
  stats = (7, record { supply = coins 10000; max_supply = coins 1000000; issuer = 1 }) ∷ [];
  accounts = (2, 7, coins 300) ∷ [];
}

abbrev day : ℕ → ℕ
day n = n * useconds_per_day + 1

abbrev producer : ℕ → ℕ → ProducerInfo ℕ
producer unpaid claimed = record {
  owner = 5;
  total_votes = 0;
  is_active = true;
  unpaid_blocks = unpaid;
  last_claim_time = claimed;
}

abbrev start : Pay ℕ
start = record {
  producers = (5, producer 5 1) ∷ [];
  producers2 = (5, record { owner = 5; votepay_share = 0; last_votepay_share_update = day 2 }) ∷ [];
  last_pervote_bucket_fill = day 0;
  perblock_bucket = pos 100;
  voters_bucket = pos 0;
  total_unpaid_blocks = 10;
  thresh_activated_stake_time = 1;
  total_producer_votepay_share = 0;
  last_vpay_state_update = day 2;
  total_vpay_share_change_rate = 0;
}

abbrev filled : Pay ℕ
filled = record start {
  last_pervote_bucket_fill = day 2;
  perblock_bucket = pos 53715;
  voters_bucket = pos 107230;
}

abbrev spread : List Inline
spread =
    issues 1 (coins 267776)
    ∷ sends 2 1 (coins 300)
    ∷ sends 1 3 (coins 107231)
    ∷ sends 1 4 (coins 107230)
    ∷ sends 1 6 (coins 53615)
    ∷ []

abbrev claimed : Pay ℕ
claimed = record filled {
  producers = (5, producer 0 (day 2)) ∷ [];
  perblock_bucket = pos 26858;
  total_unpaid_blocks = 5;
}

abbrev spread_and_paid : List Inline
spread_and_paid =
    issues 1 (coins 267776)
    ∷ sends 2 1 (coins 300)
    ∷ sends 1 3 (coins 107231)
    ∷ sends 1 4 (coins 107230)
    ∷ sends 1 6 (coins 53615)
    ∷ sends 6 5 (coins 26857)
    ∷ []

claims :
    claim_producer_rewards sample_lib digits names (at_time (day 2)) 5 false tokens start
    ≡ ok (spread_and_paid, claimed)
unfolding claim_producer_rewards block_pay settle_claim update_total_votepay_share
    update_producer_votepay_share new_votepay_share fill_buckets distribution pay_out inline
    inline_if_positive get_supply get_balance Table.find Table.set Scoped.find sample_lib quot_ℤ
    wrap64 ◌+ℤ◌ ◌-ℤ◌ ◌*ℤ◌
claims = refl

claim_once_a_day_example :
    (prod : ProducerInfo ℕ) × (Table.find 5 start.producers ≡ some prod)
    × (prod.is_active ≡ true)
    × ((at_time (day 2)).has_auth 5 ≡ true)
    × (prod.last_claim_time + useconds_per_day < day 2)
    × (claim_producer_rewards sample_lib digits names (at_time (day 3)) 5 true tokens claimed
        ≡ err "already claimed rewards within past day")
claim_once_a_day_example =
    claim_once_a_day sample_lib digits names (at_time (day 2)) (at_time (day 3)) 5 false true tokens
      tokens start claimed spread_and_paid claims refl (ground arith)

-- Another producer has made the other blocks.
abbrev both : Pay ℕ
both = record start { producers = (5, producer 5 1) ∷ (8, producer 5 1) ∷ [] }

abbrev one_more : Pay ℕ
one_more = record both {
  producers = (5, producer 6 1) ∷ (8, producer 5 1) ∷ [];
  total_unpaid_blocks = 11;
}

both-IsCounted : IsCounted both
unfolding sum_unpaid
both-IsCounted = record {
  proper = ((ground arith, tt), ground arith, (tt, ground arith, tt));
  counted = refl;
}

apply-IsCounted_example : IsCounted one_more
unfolding apply count_block Table.find Table.set
apply-IsCounted_example =
    apply-IsCounted sample_lib digits names (at_time (day 2)) (makes_block 5) both one_more []
      both-IsCounted refl

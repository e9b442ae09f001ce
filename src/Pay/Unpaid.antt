-- ===== src/Pay/Unpaid.antt =====
-- The blocks that are not paid yet, counted for each producer and in total.
use wax_system_contracts.Prelude.{
  ℕ, ◌+◌, ◌-◌, ◌%◌, ◌^◌, ◌≡◌, ◌≤◌, ◌<◌, refl, subst, Bool, none, some, Result, ok, ltb, ◌==◌, arith,
  inl, inr, Option-cases, Result-cases, Bool-cases, List, [], ◌∷◌,
}
use wax_system_contracts.Prelude.Int.{ℤ}
use wax_system_contracts.Prelude.Table
use wax_system_contracts.Asset.{AssetLib, Chain}
use wax_system_contracts.Double.{Double}
use wax_system_contracts.Token.{Token}
use wax_system_contracts.Pay.{ProducerInfo, Pay, PayLib, Inline}
use wax_system_contracts.Pay.Buckets.{count_block, fill_buckets, wrap_uint32}
use wax_system_contracts.Pay.Claim.{block_pay, settle_claim, claim_producer_rewards}
use wax_system_contracts.Pay.Shares.{update_total_votepay_share, update_producer_votepay_share}
use wax_system_contracts.Pay.Daily.{fill_buckets-same, settle_claim-producers}

module _ {D : Type 0} where
  unfoldable pub sum_unpaid : Table.Table (ProducerInfo D) → ℕ
  sum_unpaid [] = 0
  sum_unpaid ((j, p) ∷ t) = p.unpaid_blocks + sum_unpaid t

  abbrev IsAbove : ℕ → Table.Table (ProducerInfo D) → Type 0
  IsAbove k [] = Unit
  IsAbove k ((j, p) ∷ t) = (k < j) × IsAbove k t

  -- Rows stand in the order of their keys, and their counts are of 32 bits.
  abbrev pub IsProper : Table.Table (ProducerInfo D) → Type 0
  IsProper [] = Unit
  IsProper ((j, p) ∷ t) = IsAbove j t × (p.unpaid_blocks < 2 ^ 32) × IsProper t

  find_above :
      (k j : ℕ) (t : Table.Table (ProducerInfo D)) → IsAbove j t → k ≤ j → Table.find k t ≡ none
  unfolding Table.find
  find_above k j [] above le = refl
  find_above k j ((i, p) ∷ t) above le = ground (arith, find_above k j t)

  find_small :
      (k : ℕ) (old : ProducerInfo D) (t : Table.Table (ProducerInfo D))
      → IsProper t
      → Table.find k t ≡ some old
      → old.unpaid_blocks < 2 ^ 32
  unfolding Table.find
  find_small k old [] proper h = cc
  find_small k old ((i, p) ∷ t) proper h = ground (arith, find_small k old t proper.2)

  set-IsAbove :
      (j k : ℕ) (p : ProducerInfo D) (t : Table.Table (ProducerInfo D))
      → IsAbove j t
      → j < k
      → IsAbove j (Table.set k p t)
  unfolding Table.set
  set-IsAbove j k p [] above less = (less, tt)
  set-IsAbove j k p ((i, q) ∷ t) above less = ground (arith, set-IsAbove j k p t)

  replaced_sum :
      (k : ℕ) (p old : ProducerInfo D) (t : Table.Table (ProducerInfo D))
      → IsProper t
      → p.unpaid_blocks < 2 ^ 32
      → Table.find k t ≡ some old
      → (sum_unpaid (Table.set k p t) + old.unpaid_blocks ≡ sum_unpaid t + p.unpaid_blocks)
        × IsProper (Table.set k p t)
  unfolding sum_unpaid Table.set Table.find
  replaced_sum k p old [] proper small h = cc
  replaced_sum k p old ((i, q) ∷ t) proper small h = elim (Bool-cases (i == k)) [
    | inl same ↦ ground arith
    | inr other ↦ elim (Bool-cases (ltb k i)) [
      | inl before ↦ let gone = find_above k i t proper.0 (ground arith) in absurd (ground arith)
      | inr after ↦
          let rest = replaced_sum k p old t proper.2 small (ground arith) in
          let above = set-IsAbove i k p t proper.0 (ground arith) in
          rw (other, after) (omega (arith, rest.0), (above, proper.1, rest.1))
    ]
  ]

  -- The total is the sum of the producers' counts, modulo 2^32 as all of them are.
  pub record IsCounted (s : Pay D) : Type 0 where
    pub proper : IsProper s.producers
    pub counted : ◌≡◌ {A = ℕ} (sum_unpaid s.producers % 2 ^ 32) s.total_unpaid_blocks

  count_block-IsCounted :
      (c : Chain) (producer : ℕ) (s : Pay D) → IsCounted s → IsCounted (count_block c producer s)
  unfolding count_block
  count_block-IsCounted c producer s b = elim (Bool-cases (s.thresh_activated_stake_time == 0)) [
    | inl off ↦ rw off b
    | inr on ↦ elim (Option-cases (Table.find producer s.producers)) [
      | inl missing ↦ rw (on, missing) (record { proper = b.proper; counted = b.counted })
      | inr (p, found) ↦
          let p' = record p { unpaid_blocks = wrap_uint32 (p.unpaid_blocks + 1) } in
          let (sum, proper) =
            replaced_sum producer p' p s.producers b.proper (ground arith) found in
          rw (on, found) (record { proper = proper; counted = omega (arith, sum, b.counted) })
    ]
  ]

  settle_claim-total :
      (real : Double D) (ct owner : ℕ) (prod : ProducerInfo D) (pay : ℤ) (s : Pay D)
      → (settle_claim real ct owner prod pay s).total_unpaid_blocks
        ≡ wrap_uint32 (s.total_unpaid_blocks + 2 ^ 32 - prod.unpaid_blocks)
  unfolding settle_claim update_total_votepay_share update_producer_votepay_share
  settle_claim-total real ct owner prod pay s = refl

  fill_buckets-total :
      (lib : AssetLib) (real : Double D) (names : PayLib) (c : Chain) (tokens : Token) (s t : Pay D)
      (xs : List Inline)
      → fill_buckets lib real names c tokens s ≡ ok (xs, t)
      → t.total_unpaid_blocks ≡ s.total_unpaid_blocks
  unfolding fill_buckets
  fill_buckets-total lib real names c tokens s t xs h = ground arith

-- What changes the counts: the blocks of producers, and their claims.
pub data Op : Type 0 where
  makes_block : ℕ → Op
  claims : ℕ → Bool → Token → Op

module _ {D : Type 0} (lib : AssetLib) (real : Double D) (names : PayLib) where
  unfoldable pub apply : Chain → Op → Pay D → Result (List Inline × Pay D)
  apply c (makes_block producer) s = ok ([], count_block c producer s)
  apply c (claims owner as_gbm tokens) s =
      claim_producer_rewards lib real names c owner as_gbm tokens s

  claim-IsCounted :
      (c : Chain) (owner : ℕ) (as_gbm : Bool) (tokens : Token) (s t : Pay D) (xs : List Inline)
      → IsCounted s
      → claim_producer_rewards lib real names c owner as_gbm tokens s ≡ ok (xs, t)
      → IsCounted t
  unfolding claim_producer_rewards
  claim-IsCounted c owner as_gbm tokens s t xs b h =
      elim (Option-cases (Table.find owner s.producers)) [
        | inl missing ↦ absurd (ground arith)
        | inr (prod, found) ↦ elim (Result-cases (fill_buckets lib real names c tokens s)) [
          | inr (_, e) ↦ absurd (ground arith)
          | inl ((filled, s'), e) ↦ elim (Result-cases (block_pay real prod s')) [
            | inr (_, e2) ↦ absurd (ground arith)
            | inl (pay, e2) ↦
                let same = fill_buckets-same lib real names c tokens s s' filled e in
                let total = fill_buckets-total lib real names c tokens s s' filled e in
                let settled = settle_claim-producers real c.now owner prod pay s' in
                let new_total = settle_claim-total real c.now owner prod pay s' in
                let prod' : ProducerInfo D = record prod {
                  last_claim_time = c.now;
                  unpaid_blocks = 0;
                } in
                let t_is : t ≡ settle_claim real c.now owner prod pay s' = ground arith in
                let (sum, proper) =
                  replaced_sum owner prod' prod s.producers b.proper (omega arith) found in
                let small = find_small owner prod s.producers b.proper found in
                rw t_is (record {
                  proper = rw (settled.0, same.0) proper;
                  counted =
                      rw (settled.0, new_total, same.0, total)
                        (omega (arith, sum, small, b.counted));
                })
          ]
        ]
      ]

  -- The blocks of producers and their claims keep the total of unpaid blocks at the sum of the
  -- producers' counts, as numbers modulo 2^32.
  pub apply-IsCounted :
      (c : Chain) (op : Op) (s t : Pay D) (xs : List Inline)
      → IsCounted s
      → apply c op s ≡ ok (xs, t)
      → IsCounted t
  unfolding apply
  apply-IsCounted c (makes_block producer) s t xs b h =
      let t_is : count_block c producer s ≡ t = ground arith in
      subst IsCounted t_is (count_block-IsCounted c producer s b)
  apply-IsCounted c (claims owner as_gbm tokens) s t xs b h =
      claim-IsCounted c owner as_gbm tokens s t xs b h

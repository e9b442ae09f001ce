-- ===== src/Names/Ledger.antt =====
-- The books of the auctions: what a bidder has paid, less what it got back and spent on names, is
-- what it has in standing bids and refunds.
use wax_system_contracts.Prelude.{
  ℕ, ◌/◌, ◌≡◌, refl, ap, sym, ◌∙◌, Bool, true, false, ◌&&◌, none, some, Result, ok, err, ◌>>=◌,
  arith, ◌==◌, ◌!=◌, if◌then◌else◌, inl, inr, List, [], ◌∷◌, Option-cases, Result-cases, Bool-cases,
}
use wax_system_contracts.Prelude.Int.{ℤ, pos, ◌+ℤ◌, ◌-ℤ◌, ◌<ℤ◌, int_laws, parts_of_eq}
use wax_system_contracts.Prelude.Scoped
use wax_system_contracts.Prelude.Scoped.Sum.{set-IsUnique, erase-IsUnique, sum_key-erase}
use wax_system_contracts.Asset.{Transfer, Asset, AssetLib, AssetLaws, Chain}
use wax_system_contracts.Names.{
  NameBid, NameLib, Names, has_dot, place_bid, bidname, bidrefund, claim_name, close_auction,
  close_highest, is_activated, is_update_due, lower_bound, is_due, may_close,
}
use wax_system_contracts.Prelude.Scoped.Total.{total-set_old, total-erase}
use wax_system_contracts.Names.Index.{find-lower_bound}
use wax_system_contracts.Names.Bids.{
  size, of_bidder, standing, value, stake, IsKeyed, place_bid_counts,
}

pub data Op : Type 0 where
  bids_on : ℕ → ℕ → Asset → Op
  refunds : ℕ → ℕ → Op
  claims : ℕ → ℕ → Op
  closes : ℕ → Op

-- What an account pays less what it receives.
unfoldable pub net : ℕ → List Transfer → ℤ
net who [] = pos 0
net who (x ∷ xs) =
    (of_bidder who x.from x.quantity.amount -ℤ of_bidder who x.to x.quantity.amount) +ℤ net who xs

module _ (lib : AssetLib) (names : NameLib) where
  unfoldable pub apply : Chain → Op → Names → Result (List Transfer × Names)
  apply c (bids_on bidder newname bid) s = do
    (x, t) ← bidname lib names c bidder newname bid s
    ok (x ∷ [], t)
  apply c (refunds bidder newname) s = do
    (x, t) ← bidrefund lib names bidder newname s
    ok (x ∷ [], t)
  apply c (claims creator name) s = do t ← claim_name lib names creator name s; ok ([], t)
  apply c (closes slot) s = ok ([], close_auction lib names c slot s)

  -- The bid that pays for a name when its winner claims it.
  abbrev pub spent : ℕ → Op → Names → ℤ
  spent who (claims creator name) s =
      if creator != names.self && has_dot 12 (name / 16) && names.suffix name == name
      then (elim (Scoped.find names.self name s.bids) [ none ↦ pos 0 | some b ↦ standing who b ])
      else pos 0
  spent who (bids_on bidder newname bid) s = pos 0
  spent who (refunds bidder newname) s = pos 0
  spent who (closes slot) s = pos 0

  -- A history, with what the account has paid, less what it got back and spent; an action that fails
  -- leaves no trace.
  unfoldable pub run : ℕ → List (Chain × Op) → ℤ → Names → ℤ × Names
  run who [] paid s = (paid, s)
  run who ((c, op) ∷ ops) paid s = elim (apply c op s) [
    | ok (xs, t) ↦ run who ops ((paid +ℤ net who xs) -ℤ spent who op s) t
    | err e ↦ run who ops paid s
  ]

pub plus_zero : (a : ℤ) → a +ℤ pos 0 ≡ a
plus_zero a = omega int_laws

plus_nothing : (a : ℤ) (b : Bool) → a +ℤ (if b then pos 0 else pos 0) ≡ a
plus_nothing a true = plus_zero a
plus_nothing a false = plus_zero a

size_negated : (a : ℤ) → size (pos 0 -ℤ a) ≡ size a
unfolding ◌-ℤ◌
size_negated a = ground arith

module _ (lib : AssetLib) (laws : AssetLaws lib) (names : NameLib) (who : ℕ) where
  bidname_counts :
      (c : Chain) (bidder newname : ℕ) (bid : Asset) (s t : Names) (x : Transfer)
      → IsKeyed s
      → (names.names_account == who) ≡ false
      → bidname lib names c bidder newname bid s ≡ ok (x, t)
      → IsKeyed t × (stake who t ≡ stake who s +ℤ net who (x ∷ []))
  unfolding bidname net
  bidname_counts c bidder newname bid s t x keyed other h =
      elim (Result-cases (place_bid lib names c bidder newname bid s)) [
        | inr (_, e) ↦ absurd (ground arith)
        | inl (t', e) ↦
            let positive : pos 0 <ℤ bid.amount = ground arith in
            let t_is : t ≡ t' = ground arith in
            let x_is : x ≡ record { from = bidder; to = names.names_account; quantity = bid } =
              ground arith in
            let counts =
              place_bid_counts lib laws names who c bidder newname bid s t' keyed positive e in
            rw (t_is, x_is, other) (counts.0, omega (int_laws, parts_of_eq counts.1))
      ]

  bidrefund_counts :
      (bidder newname : ℕ) (s t : Names) (x : Transfer)
      → IsKeyed s
      → (names.names_account == who) ≡ false
      → bidrefund lib names bidder newname s ≡ ok (x, t)
      → IsKeyed t × (stake who t ≡ stake who s +ℤ net who (x ∷ []))
  unfolding bidrefund net stake
  bidrefund_counts bidder newname s t x keyed other h =
      elim (Option-cases (Scoped.find newname bidder s.refunds)) [
        | inl missing ↦ absurd (ground arith)
        | inr (amount, found) ↦
            let t_is : t ≡ record s { refunds = Scoped.erase newname bidder s.refunds } =
              ground arith in
            let x_is : x ≡ record { from = names.names_account; to = bidder; quantity = amount } =
              ground arith in
            let erased = sum_key-erase value who newname bidder amount s.refunds keyed.1 found in
            rw (t_is, x_is, other)
              (
                (keyed.0, erase-IsUnique newname bidder s.refunds keyed.1),
                omega (int_laws, parts_of_eq erased),
              )
      ]

  close_highest_counts :
      (c : Chain) (slot : ℕ) (s : Names)
      → IsKeyed s
      → IsKeyed (close_highest lib names c slot s)
        × (stake who (close_highest lib names c slot s) ≡ stake who s)
  unfolding close_highest stake
  close_highest_counts c slot s keyed = elim (Option-cases (lower_bound names.self s.bids)) [
    | inl nothing ↦
        let same : close_highest lib names c slot s ≡ s = ground arith in rw same (keyed, refl)
    | inr ((key, b), e) ↦ elim (Bool-cases (is_due lib names slot s && may_close lib names c b s)) [
      | inr early ↦
          let same : close_highest lib names c slot s ≡ s = ground arith in rw same (keyed, refl)
      | inl ready ↦
          let closed : NameBid = record b { high_bid = pos 0 -ℤ b.high_bid } in
          let found = find-lower_bound names.self key b s.bids keyed.0 e in
          let open_bid : pos 0 <ℤ b.high_bid = ground arith in
          let t_is : close_highest lib names c slot s ≡ record s {
            last_name_close = slot;
            bids = Scoped.set names.self key closed s.bids;
          } =
            ground arith in
          let replaced = total-set_old (standing who) names.self key closed b s.bids found in
          rw t_is (
            (set-IsUnique names.self key closed s.bids keyed.0, keyed.1),
            omega (int_laws, parts_of_eq (rw (size_negated b.high_bid) at replaced)),
          )
    ]
  ]

  close_counts :
      (c : Chain) (slot : ℕ) (s : Names)
      → IsKeyed s
      → IsKeyed (close_auction lib names c slot s)
        × (stake who (close_auction lib names c slot s) ≡ stake who s)
  unfolding close_auction stake
  close_counts c slot s keyed =
      elim (Bool-cases (is_activated lib names s && is_update_due lib names slot s)) [
        | inl due ↦
            rw due (
              close_highest_counts c slot (record s { last_producer_schedule_update = slot }) keyed)
        | inr early ↦ rw early (keyed, refl)
      ]

  claim_counts :
      (creator name : ℕ) (s t : Names)
      → IsKeyed s
      → claim_name lib names creator name s ≡ ok t
      → IsKeyed t × (stake who t +ℤ spent lib names who (claims creator name) s ≡ stake who s)
  unfolding claim_name stake
  claim_counts creator name s t keyed h = elim (Option-cases (Scoped.find names.self name s.bids)) [
    | inl missing ↦
        let t_is : t ≡ s = ground arith in
        rw (t_is, missing)
          (
            keyed,
            plus_nothing (stake who s)
                (creator != names.self && has_dot 12 (name / 16) && names.suffix name == name),
          )
    | inr (b, found) ↦
        elim (Bool-cases
          (creator != names.self && has_dot 12 (name / 16) && names.suffix name == name)) [
            | inr free ↦ let t_is : t ≡ s = ground arith in rw (t_is, free) (keyed, omega int_laws)
            | inl auctioned ↦
                let t_is : t ≡ record s { bids = Scoped.erase names.self name s.bids } =
                  ground arith in
                let erased = total-erase (standing who) names.self name b s.bids keyed.0 found in
                rw (t_is, auctioned, found)
                  (
                    (erase-IsUnique names.self name s.bids keyed.0, keyed.1),
                    omega (int_laws, parts_of_eq erased),
                  )
          ]
  ]

  -- One action: what the account has in the auctions, and what it has spent on names, changes by
  -- what it pays less what it gets back. Rows keep distinct keys.
  pub apply_balances :
      (c : Chain) (op : Op) (s t : Names) (xs : List Transfer)
      → IsKeyed s
      → (names.names_account == who) ≡ false
      → apply lib names c op s ≡ ok (xs, t)
      → IsKeyed t × (stake who t +ℤ spent lib names who op s ≡ stake who s +ℤ net who xs)
  unfolding apply net
  apply_balances c (bids_on bidder newname bid) s t xs keyed other h =
      elim (Result-cases (bidname lib names c bidder newname bid s)) [
        | inr (_, e) ↦ absurd (ground arith)
        | inl ((x, t'), e) ↦
            let counts = bidname_counts c bidder newname bid s t' x keyed other e in
            let t_is : t ≡ t' = ground arith in
            let xs_is : xs ≡ x ∷ [] = ground arith in
            rw (t_is, xs_is) (counts.0, plus_zero (stake who t') ∙ counts.1)
      ]
  apply_balances c (refunds bidder newname) s t xs keyed other h =
      elim (Result-cases (bidrefund lib names bidder newname s)) [
        | inr (_, e) ↦ absurd (ground arith)
        | inl ((x, t'), e) ↦
            let counts = bidrefund_counts bidder newname s t' x keyed other e in
            let t_is : t ≡ t' = ground arith in
            let xs_is : xs ≡ x ∷ [] = ground arith in
            rw (t_is, xs_is) (counts.0, plus_zero (stake who t') ∙ counts.1)
      ]
  apply_balances c (claims creator name) s t xs keyed other h =
      elim (Result-cases (claim_name lib names creator name s)) [
        | inr (_, e) ↦ absurd (ground arith)
        | inl (t', e) ↦
            let counts = claim_counts creator name s t' keyed e in
            let t_is : t ≡ t' = ground arith in
            let xs_is : xs ≡ [] = ground arith in
            rw (t_is, xs_is) (counts.0, counts.1 ∙ sym (plus_zero (stake who s)))
      ]
  apply_balances c (closes slot) s t xs keyed other h =
      let counts = close_counts c slot s keyed in
      let t_is : t ≡ close_auction lib names c slot s = ground arith in
      let xs_is : xs ≡ [] = ground arith in
      rw (t_is, xs_is) (counts.0, ap (λ a. a +ℤ pos 0) counts.1)

-- ===== src/Names/Bids.antt =====
-- What each action does to the money that a bidder has in the auctions.
use wax_system_contracts.Prelude.{
  ℕ, ◌+◌, ◌≡◌, Bool, true, false, ok, arith, ◌==◌, if◌then◌else◌, inl, inr, Option-cases,
  Result-cases,
}
use wax_system_contracts.Prelude.Int.{ℤ, pos, pos_part, neg_part, ◌+ℤ◌, ◌<ℤ◌, int_laws, parts_of_eq}
use wax_system_contracts.Prelude.Scoped
use wax_system_contracts.Prelude.Scoped.Sum.{
  IsUnique, set-IsUnique, sum_key, sum_key-set_new, sum_key-set_old,
}
use wax_system_contracts.Asset.{Asset, AssetLib, AssetLaws, Chain}
use wax_system_contracts.Names.{NameBid, NameLib, Names, core_asset, add_refund, place_bid}
use wax_system_contracts.Prelude.Scoped.Total.{total, total-set_new, total-set_old}

-- The amount of a bid, closed or not.
abbrev pub size : ℤ → ℤ
size a = pos (pos_part a + neg_part a)

abbrev pub of_bidder : ℕ → ℕ → ℤ → ℤ
of_bidder who bidder amount = if bidder == who then amount else pos 0

abbrev pub standing : ℕ → NameBid → ℤ
standing who b = of_bidder who b.high_bidder (size b.high_bid)

abbrev pub value : Asset → ℤ
value a = a.amount

-- The standing bids of a bidder, and the refunds that wait for it.
unfoldable pub stake : ℕ → Names → ℤ
stake who s = total (standing who) s.bids +ℤ sum_key value who s.refunds

-- Rows have distinct keys.
abbrev pub IsKeyed : Names → Type 0
IsKeyed s = IsUnique s.bids × IsUnique s.refunds

-- A row of the bidder, or of another one, grows by an amount.
own_row : (x y old back sum : ℤ) → sum ≡ old +ℤ back → x +ℤ old ≡ y +ℤ sum → x ≡ y +ℤ back
own_row x y old back sum e h = omega (int_laws, parts_of_eq e, parts_of_eq h)

other_row : (x y : ℤ) → x +ℤ pos 0 ≡ y +ℤ pos 0 → x ≡ y +ℤ pos 0
other_row x y h = omega (int_laws, parts_of_eq h)

row_grows :
    (x y old back sum : ℤ) (hit : Bool)
    → sum ≡ old +ℤ back
    → x +ℤ (if hit then old else pos 0) ≡ y +ℤ (if hit then sum else pos 0)
    → x ≡ y +ℤ (if hit then back else pos 0)
row_grows x y old back sum true e h = own_row x y old back sum e h
row_grows x y old back sum false e h = other_row x y h

pub size_pos : (a : ℤ) → pos 0 <ℤ a → size a ≡ a
size_pos a p = ground arith

-- A bid replaces another, whose amount becomes a refund.
outbid : (b b' r r' old new : ℤ) → b' +ℤ old ≡ b +ℤ new → r' ≡ r +ℤ old → b' +ℤ r' ≡ (b +ℤ r) +ℤ new
outbid b b' r r' old new e h = omega (int_laws, parts_of_eq e, parts_of_eq h)

first_bid : (b b' r new : ℤ) → b' ≡ b +ℤ new → b' +ℤ r ≡ (b +ℤ r) +ℤ new
first_bid b b' r new e = omega (int_laws, parts_of_eq e)

module _ (lib : AssetLib) (laws : AssetLaws lib) (names : NameLib) (who : ℕ) where
  refund_counts :
      (newname : ℕ) (current : NameBid) (r r' : Scoped.Scoped Asset)
      → IsUnique r
      → add_refund lib names newname current r ≡ ok r'
      → IsUnique r'
        × (sum_key value who r'
            ≡ sum_key value who r +ℤ of_bidder who current.high_bidder current.high_bid)
  unfolding add_refund core_asset
  refund_counts newname current r r' u h =
      let back : Asset = record { amount = current.high_bid; symbol = names.core_symbol } in
      elim (Option-cases (Scoped.find newname current.high_bidder r)) [
        | inl missing ↦
            let r'_is : r' ≡ Scoped.set newname current.high_bidder back r = ground arith in
            rw r'_is (
              set-IsUnique newname current.high_bidder back r u,
              sum_key-set_new value who newname current.high_bidder back r missing,
            )
        | inr (old, found) ↦ elim (Result-cases (lib.plus old back)) [
          | inr (_, e) ↦ absurd (ground arith)
          | inl (sum, e) ↦
              let r'_is : r' ≡ Scoped.set newname current.high_bidder sum r = ground arith in
              let exact = (laws.plus_ok old back sum e).2 in
              rw r'_is (
                set-IsUnique newname current.high_bidder sum r u,
                row_grows _ _ old.amount current.high_bid sum.amount (current.high_bidder == who)
                    exact (sum_key-set_old value who newname current.high_bidder sum old r found),
              )
        ]
      ]

  pub place_bid_counts :
      (c : Chain) (bidder newname : ℕ) (bid : Asset) (s t : Names)
      → IsKeyed s
      → pos 0 <ℤ bid.amount
      → place_bid lib names c bidder newname bid s ≡ ok t
      → IsKeyed t × (stake who t ≡ stake who s +ℤ of_bidder who bidder bid.amount)
  unfolding place_bid stake
  place_bid_counts c bidder newname bid s t keyed positive h =
      let new : NameBid = record {
        newname = newname;
        high_bidder = bidder;
        high_bid = bid.amount;
        last_bid_time = c.now;
      } in
      elim (Option-cases (Scoped.find names.self newname s.bids)) [
        | inl missing ↦
            let t_is : t ≡ record s { bids = Scoped.set names.self newname new s.bids } =
              ground arith in
            let added = total-set_new (standing who) names.self newname new s.bids missing in
            rw t_is (
              (set-IsUnique names.self newname new s.bids keyed.0, keyed.1),
              first_bid _ _ _ _ (rw (size_pos bid.amount positive) at added),
            )
        | inr (current, found) ↦
            elim (Result-cases (add_refund lib names newname current s.refunds)) [
              | inr (_, e) ↦ absurd (ground arith)
              | inl (refunds, e) ↦
                  let next : NameBid = record current {
                    high_bidder = bidder;
                    high_bid = bid.amount;
                    last_bid_time = c.now;
                  } in
                  let open_bid : pos 0 <ℤ current.high_bid = ground arith in
                  let t_is : t ≡ record s {
                    refunds = refunds;
                    bids = Scoped.set names.self newname next s.bids;
                  } =
                    ground arith in
                  let replaced =
                    total-set_old (standing who) names.self newname next current s.bids found in
                  let counts = refund_counts newname current s.refunds refunds keyed.1 e in
                  rw t_is (
                    (set-IsUnique names.self newname next s.bids keyed.0, counts.0),
                    outbid _ _ _ _ _ _
                        (rw (size_pos current.high_bid open_bid, size_pos bid.amount positive) at
                          replaced)
                        counts.1,
                  )
            ]
      ]

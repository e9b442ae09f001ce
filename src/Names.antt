-- ===== src/Names.antt =====
-- The auctions of account names in contracts/eosio.system: src/name_bidding.cpp, the closing of an
-- auction in `onblock` of src/producer_pay.cpp, and the claim of a name in `native::newaccount` of
-- src/eosio.system.cpp. A name is its 64-bit value.
pub mod Index
pub mod Bids
pub mod Ledger
pub mod Books
mod Tests
use wax_system_contracts.Prelude.{
  ℕ, ◌+◌, ◌-◌, ◌*◌, ◌/◌, ◌%◌, ◌^◌, Bool, true, false, not, ◌&&◌, ◌||◌, Option, none, some, Result,
  ok, err, ◌>>=◌, ◌>>◌, check, or_fail, List, [], ◌∷◌, ltb, leb, ◌==◌, ◌!=◌, if◌then◌else◌, zero,
  suc,
}
use wax_system_contracts.Prelude.Int.{ℤ, pos, negsuc, ◌-ℤ◌, quot_ℤ, ltb_ℤ}
use wax_system_contracts.Prelude.Scoped
use wax_system_contracts.Asset.{Symbol, Asset, same_symbol, AssetLib, Chain, Transfer, require_auth}

-- `name::suffix`, `core_symbol()`, and the contract's own account and that of the auctions.
pub record NameLib : Type 0 where
  pub suffix : ℕ → ℕ
  pub core_symbol : Symbol
  pub self : ℕ
  pub names_account : ℕ

pub record NameBid : Type 0 where
  pub newname : ℕ
  pub high_bidder : ℕ
  pub high_bid : ℤ
  pub last_bid_time : ℕ

-- Bids by the contract's own scope and the name, refunds by name and bidder; `last_name_close` and
-- `last_producer_schedule_update` are slots, the time of activation microseconds.
pub record Names : Type 0 where
  pub bids : Scoped.Scoped NameBid
  pub refunds : Scoped.Scoped Asset
  pub last_name_close : ℕ
  pub last_producer_schedule_update : ℕ
  pub thresh_activated_stake_time : ℕ

abbrev useconds_per_day : ℕ
useconds_per_day = 24 * 3600 * 1000000

-- The number of half seconds in a day.
abbrev blocks_per_day : ℕ
blocks_per_day = 2 * 24 * 3600

-- One of the 5-bit characters is a dot.
unfoldable pub has_dot : ℕ → ℕ → Bool
has_dot zero tmp = false
has_dot (suc i) tmp = tmp % 32 == 0 || has_dot i (tmp / 32)

-- `by_high_bid`: the negated bid, as a uint64_t.
abbrev by_high_bid : ℤ → ℕ
by_high_bid (pos n) = (2 ^ 64 - n) % 2 ^ 64
by_high_bid (negsuc n) = n + 1

abbrev bid_key : ℕ × NameBid → ℕ
bid_key (k, b) = by_high_bid b.high_bid

-- The first of two rows in the order of the index, where equal bids stand by name.
abbrev goes_first : ℕ × NameBid → ℕ × NameBid → Bool
goes_first a b = ltb (bid_key a) (bid_key b) || (bid_key a == bid_key b && ltb a.0 b.0)

-- `idx.lower_bound( max / 2 )` in the table of a scope.
unfoldable pub lower_bound : ℕ → Scoped.Scoped NameBid → Option (ℕ × NameBid)
lower_bound scope [] = none
lower_bound scope ((i, k, b) ∷ rows) =
    if i == scope && leb (2 ^ 63 - 1) (bid_key (k, b))
    then elim (lower_bound scope rows) [
      | none ↦ some (k, b)
      | some best ↦ if goes_first (k, b) best then some (k, b) else some best
    ]
    else lower_bound scope rows

module _ (lib : AssetLib) (names : NameLib) where
  -- The constructor of an asset checks it.
  unfoldable pub core_asset : ℤ → Result Asset
  core_asset amount =
      let quantity : Asset = record { amount = amount; symbol = names.core_symbol } in
      do check (lib.is_valid quantity) "invalid asset"; ok quantity

  -- The outbid bidder's money becomes a refund.
  unfoldable pub add_refund : ℕ → NameBid → Scoped.Scoped Asset → Result (Scoped.Scoped Asset)
  unfolding core_asset
  add_refund newname current refunds = do
    returned ← core_asset current.high_bid
    elim (Scoped.find newname current.high_bidder refunds) [
      | none ↦ ok (Scoped.set newname current.high_bidder returned refunds)
      | some r ↦ do
        amount ← lib.plus r returned
        ok (Scoped.set newname current.high_bidder amount refunds)
    ]

  -- Bids are positive, so the difference of two of them is exact.
  unfoldable pub place_bid : Chain → ℕ → ℕ → Asset → Names → Result Names
  unfolding add_refund
  place_bid c bidder newname bid s =
      let new : NameBid = record {
        newname = newname;
        high_bidder = bidder;
        high_bid = bid.amount;
        last_bid_time = c.now;
      } in
      elim (Scoped.find names.self newname s.bids) [
        | none ↦ ok (record s { bids = Scoped.set names.self newname new s.bids })
        | some current ↦ do
          check (ltb_ℤ (pos 0) current.high_bid) "this auction has already closed"
          check (ltb_ℤ (quot_ℤ current.high_bid 10) (bid.amount -ℤ current.high_bid))
              "must increase bid by 10%"
          check (current.high_bidder != bidder) "account is already highest bidder"
          refunds ← add_refund newname current s.refunds
          ok (record s {
            refunds = refunds;
            bids =
                Scoped.set names.self newname
                  (record current {
                    high_bidder = bidder;
                    high_bid = bid.amount;
                    last_bid_time = c.now;
                  })
                  s.bids;
          })
      ]

  unfoldable pub bidname : Chain → ℕ → ℕ → Asset → Names → Result (Transfer × Names)
  bidname c bidder newname bid s = do
    require_auth c bidder
    check (names.suffix newname == newname) "you can only bid on top-level suffix"
    check (newname != 0) "the empty name is not a valid account name to bid on"
    check (newname % 16 == 0) "13 character names are not valid account names to bid on"
    check (newname / 16 % 32 == 0)
        "accounts with 12 character names and no dots can be created without bidding required"
    check (not (c.is_account newname)) "account already exists"
    check (same_symbol bid.symbol names.core_symbol) "asset must be system token"
    check (ltb_ℤ (pos 0) bid.amount) "insufficient bid"
    s' ← place_bid c bidder newname bid s
    ok (record { from = bidder; to = names.names_account; quantity = bid }, s')

  unfoldable pub bidrefund : ℕ → ℕ → Names → Result (Transfer × Names)
  bidrefund bidder newname s = do
    amount ← or_fail (Scoped.find newname bidder s.refunds) "refund not found"
    ok (
      record { from = names.names_account; to = bidder; quantity = amount },
      record s { refunds = Scoped.erase newname bidder s.refunds },
    )

  -- The part of `newaccount` that claims a name.
  unfoldable pub claim_name : ℕ → ℕ → Names → Result Names
  claim_name creator name s =
      if creator != names.self && has_dot 12 (name / 16)
      then (if names.suffix name == name
          then (do
            current ← or_fail (Scoped.find names.self name s.bids) "no active bid for name"
            check (current.high_bidder == creator) "only highest bidder can claim"
            check (ltb_ℤ current.high_bid (pos 0)) "auction for name is not closed yet"
            ok (record s { bids = Scoped.erase names.self name s.bids }))
          else (do
            check (creator == names.suffix name) "only suffix may create this account"
            ok s))
      else ok s

  -- A day has passed since the last name closed, in half seconds of uint32_t.
  abbrev pub is_due : ℕ → Names → Bool
  is_due slot s = ltb blocks_per_day ((slot + 2 ^ 32 - s.last_name_close) % 2 ^ 32)

  abbrev pub may_close : Chain → NameBid → Names → Bool
  may_close c highest s =
      ltb_ℤ (pos 0) highest.high_bid
      && ltb_ℤ (pos useconds_per_day) (pos c.now -ℤ pos highest.last_bid_time)
      && ltb 0 s.thresh_activated_stake_time
      && ltb_ℤ (pos (14 * useconds_per_day)) (pos c.now -ℤ pos s.thresh_activated_stake_time)

  -- The part of `onblock` that closes an auction, for a block of this slot.
  unfoldable pub close_highest : Chain → ℕ → Names → Names
  close_highest c slot s =
      if is_due slot s
      then elim (lower_bound names.self s.bids) [
        | none ↦ s
        | some (key, highest) ↦
            if may_close c highest s
            then record s {
              last_name_close = slot;
              bids =
                  Scoped.set names.self key
                    (record highest { high_bid = pos 0 -ℤ highest.high_bid }) s.bids;
            }
            else s
      ]
      else s

  abbrev pub is_activated : Names → Bool
  is_activated s = s.thresh_activated_stake_time != 0

  -- A minute has passed since the producers were last updated, in half seconds of uint32_t.
  abbrev pub is_update_due : ℕ → Names → Bool
  is_update_due slot s = ltb 120 ((slot + 2 ^ 32 - s.last_producer_schedule_update) % 2 ^ 32)

  -- `onblock`, which runs up to here only after activation; of `update_elected_producers`, which
  -- comes first, the time that it notes down.
  unfoldable pub close_auction : Chain → ℕ → Names → Names
  close_auction c slot s =
      if is_activated s && is_update_due slot s
      then close_highest c slot (record s { last_producer_schedule_update = slot })
      else s

-- ===== src/Names/Tests.antt =====
-- Runs of the name auctions and their theorems at concrete inputs. The name 3 * 2^59 is bid on, by
-- 21 and then by 22; the auctions' account is 90, the contract's 91.
use wax_system_contracts.Prelude.{ℕ, ◌*◌, ◌^◌, ◌≡◌, refl, true, false, ok, List, [], ◌∷◌}
use wax_system_contracts.Prelude.Int.{pos, negsuc, ◌+ℤ◌, ◌-ℤ◌, quot_ℤ}
use wax_system_contracts.Prelude.Scoped
use wax_system_contracts.Asset.{Transfer, Asset, Symbol, Chain}
use wax_system_contracts.Asset.Sample.{sample_lib, sample_laws}
use wax_system_contracts.Names.{
  NameLib, NameBid, Names, lower_bound, close_auction, close_highest, bidname, place_bid,
  add_refund, core_asset,
}
use wax_system_contracts.Names.Bids.{stake, IsKeyed}
use wax_system_contracts.Names.Ledger.{Op, bids_on, apply, net, run, apply_balances}
use wax_system_contracts.Names.Books.{books_balance, no_auctions}

abbrev wax : Symbol
wax = record { code = 7; precision = 8 }

abbrev coins : ℕ → Asset
coins n = record { amount = pos n; symbol = wax }

abbrev name_lib : NameLib
name_lib = record { suffix = λ n. n; core_symbol = wax; self = 91; names_account = 90 }

abbrev name : ℕ
name = 3 * 2 ^ 59

abbrev nobody_there : Chain
nobody_there = record {
  has_auth = λ n. true;
  is_account = λ n. false;
  has_permission = λ a p. true;
  now = 5;
  now_sec = 0;
}

abbrev bid_of : ℕ → ℕ → NameBid
bid_of who n = record { newname = name; high_bidder = who; high_bid = pos n; last_bid_time = 5 }

abbrev first_bids : Names
first_bids = record (no_auctions 0 0 0) { bids = (91, name, bid_of 21 100) ∷ [] }

abbrev outbids : Names
outbids = record (no_auctions 0 0 0) {
  bids = (91, name, bid_of 22 111) ∷ [];
  refunds = (name, 21, coins 100) ∷ [];
}

abbrev paid_by_22 : List Transfer
paid_by_22 = record { from = 22; to = 90; quantity = coins 111 } ∷ []

bids_more :
    apply sample_lib name_lib nobody_there (bids_on 22 name (coins 111)) first_bids
    ≡ ok (paid_by_22, outbids)
unfolding apply bidname place_bid add_refund core_asset Scoped.find Scoped.set sample_lib quot_ℤ
    ◌-ℤ◌
bids_more = refl

abbrev history : List (Chain × Op)
history =
    (nobody_there, bids_on 21 name (coins 100))
    ∷ (nobody_there, bids_on 22 name (coins 110))
    ∷ (nobody_there, bids_on 22 name (coins 111))
    ∷ []

-- The second bid does not raise by more than a tenth.
runs : run sample_lib name_lib 21 history (pos 0) (no_auctions 0 0 0) ≡ (pos 100, outbids)
unfolding run net apply bidname place_bid add_refund core_asset Scoped.find Scoped.set sample_lib
    quot_ℤ ◌-ℤ◌ ◌+ℤ◌
runs = refl

-- Long after activation the auction closes, but not in a block that comes within a minute of the last
-- update of the producers.
abbrev much_later : Chain
much_later = record nobody_there { now = 2000000000000 }

abbrev open_auction : ℕ → Names
open_auction update = record (no_auctions 0 update 1) { bids = (91, name, bid_of 21 100) ∷ [] }

closes_it :
    close_auction sample_lib name_lib much_later 172921 (open_auction 172800)
    ≡ record (no_auctions 172921 172921 1) {
      bids = (91, name, record (bid_of 21 100) { high_bid = negsuc 99 }) ∷ [];
    }
unfolding close_auction close_highest lower_bound Scoped.set ◌-ℤ◌
closes_it = refl

too_soon :
    close_auction sample_lib name_lib much_later 172920 (open_auction 172800) ≡ open_auction 172800
unfolding close_auction
too_soon = refl

first_bids-IsKeyed : IsKeyed first_bids
unfolding Scoped.find
first_bids-IsKeyed = ((refl, tt), tt)

apply_balances_example :
    IsKeyed outbids × (stake 21 outbids +ℤ pos 0 ≡ stake 21 first_bids +ℤ net 21 paid_by_22)
apply_balances_example =
    apply_balances sample_lib sample_laws name_lib 21 nobody_there (bids_on 22 name (coins 111))
      first_bids outbids paid_by_22 first_bids-IsKeyed refl bids_more

books_balance_example :
    stake 21 (run sample_lib name_lib 21 history (pos 0) (no_auctions 0 0 0)).1
    ≡ (run sample_lib name_lib 21 history (pos 0) (no_auctions 0 0 0)).0
books_balance_example = books_balance sample_lib sample_laws name_lib 21 history 0 0 0 refl

-- ===== src/Lib.antt =====
-- The WAX system contracts, contract by contract.
--
-- The program is a set of smart contracts for an EOSIO chain. Each contract keeps its state in
-- tables of the chain's database and changes it by actions; an action that fails a `check` aborts
-- and leaves nothing behind. In the model an action is a function from the state to `Result` of
-- the new state: `ok`, or `err` with the message of the check. Inline actions that an action sends
-- are part of its result.
--
-- Prelude holds what all modules share: tests on numbers, `Result`, integers with the 64-bit
-- wrap-around, and the tables (`Prelude.Table` with one scope, `Prelude.Scoped` with many) with
-- the sums over their rows. Asset holds assets and symbols, and the two records that stand for
-- code outside the repository: `AssetLib`, the toolkit's checked asset arithmetic, with
-- `AssetLaws` for what the toolkit documents of it, and `Chain`, what an action learns from the
-- chain (authority, accounts, time). Asset.Sample is a concrete `AssetLib` that meets the laws.
--
-- Token (Token.antt and below) is contracts/eosio.token: `create`, `issue`, `retire`, `transfer`,
-- `open_account` (`open`), `close_account` (`close`), `sub_balance` and `add_balance`.
-- Token.Effects inverts successful calls, Token.Rows has the helpers' effect on the rows and the
-- sums, Token.Invariant and Token.History the invariant, Token.Transfer the transfers.
--
-- Msig (Msig.antt and below) is contracts/eosio.msig; Msig.Actions has its actions under their own
-- names. Deserialisation, hashing and the chain's authorization check are the parameter `TrxLib`.
-- Msig.Exec is about execution, Msig.Delay about the time from an approval to it, Msig.Invalidate
-- about withdrawn approvals, Msig.Rows and Msig.Levels about the lists of approvals in the
-- old and the new format, Msig.Coherence about the agreement of the tables.
--
-- Wps (Wps.antt and below) is the worker proposal system of contracts/eosio.system: src/wps.cpp
-- and `stake2vote` of src/voting.cpp. Wps.Registry has the actions on proposers, reviewers,
-- committees and settings, Wps.Proposals the registration and payment of proposals, Wps.Review the
-- decisions, Wps.Voting the votes, and Wps.Actions one type for all of them. Wps.Lifecycle is
-- about the status of a proposal, Wps.Funding about its payments. Floating point and the key
-- generator are the parameter `VoteLib`; the rows of `voters` and the activated stake are only
-- read there.
--
-- LimitAuth (LimitAuth.antt and below) is contracts/eosio.system, src/limit_auth_changes.cpp: an
-- account limits which of its permissions change its authorities. LimitAuth.Decision is about one
-- call, LimitAuth.Invariant about the table, LimitAuth.Lockout about the owner permission and
-- LimitAuth.Rules about the documented rules. The encoded name "owner" is a parameter.
--
-- Names (Names.antt and below) is the auctions of account names in contracts/eosio.system:
-- `bidname` and `bidrefund` of src/name_bidding.cpp, `close_auction` for that part of `onblock` in
-- src/producer_pay.cpp with the tests around it, and `claim_name` for that part of `newaccount` in
-- src/eosio.system.cpp. The transfers that an action sends are part of its result. Names.Index is
-- about the index of the bids, Names.Bids and Names.Ledger follow the money of one bidder through
-- an action, Names.Books through a history.
--
-- BlockInfo (BlockInfo.antt and below) is contracts/eosio.system, src/block_info.cpp and
-- include/eosio.system/block_info.hpp: `add_to_blockinfo_table` and `get_latest_block_batch_info`.
-- BlockInfo.Window is about the rolling window, BlockInfo.Batch about the query.
--
-- Double (Double.antt) is the parameter for floating point, with Double.Sample for runs.
--
-- Resources (Resources.antt and below) is what the accounts of contracts/eosio.system may use: the
-- rows of `userres`, the flags of `voters`, and the limits that the chain enforces.
-- Resources.Admin has `setalimits`, `setacctram`, `setacctnet` and `setacctcpu` of
-- src/eosio.system.cpp, Resources.Grants what trades, staking, `adjust_resources` of
-- src/powerup.cpp and `newaccount` do to them. Resources.Agreement and Resources.Steps compare
-- limits with rows, Resources.Managed is about the flags.
--
-- Ram (Ram.antt and below) is the market for RAM: Ram.Exchange is src/exchange_state.cpp,
-- Ram.Supply `setram`, `setramrate`, `update_ram_supply` and `init` of src/eosio.system.cpp,
-- Ram.Trade `buyram`, `buyrambytes` and `sellram` of src/delegate_bandwidth.cpp. It stands on
-- Resources. Ram.Bytes, Ram.Backing and Ram.Steps account for every byte, Ram.Fees is about a
-- single trade.
--
-- Powerup (Powerup.antt and below) is the market for NET and CPU of src/powerup.cpp, which stands
-- on Resources too: Powerup.Curve has `update_weight`, `update_utilization` and
-- `calc_powerup_fee`, Powerup.Queue `process_powerup_queue`, Powerup.Sale `powerup` and
-- `powerupexec`, and Powerup.Config `cfgpowerup`. Powerup.Totals, Loop, Balance, Settle, Setup and
-- Steps add up orders and rows, Powerup.Owners is about what single accounts hold, Powerup.Expiry
-- about the queue, Powerup.Parts and Purchase about a sale, Powerup.Decay about the utilization,
-- Powerup.Shrink and Weight about the weight.
--
-- Pay (Pay.antt and below) is src/producer_pay.cpp, with the vote pay shares of src/voting.cpp in
-- Pay.Shares. Pay.Buckets has the counting of blocks in `onblock` and `fill_buckets`, which reads
-- the tables of Token, and Pay.Claim `claimrewards` and `claimgbmprod`. Inline actions on the
-- token contract are part of the result, and Pay.Flows and Pay.Fill follow their tokens; Pay.Daily
-- is about claims, Pay.Unpaid about the counts of blocks.
--
-- Every loop is structural recursion on the list it walks or on a count that the code has (twelve
-- characters, two rows to erase, the orders to process), so no definition has fuel. Names are the
-- numbers that stand for them, times are microseconds, seconds or slots since the epoch, and the
-- results of integer arithmetic are wrapped where the code does not check them. Names of payers,
-- notifications and printing are left out, since they do not change a table.
--
-- Not modelled: the rest of contracts/eosio.system (the votes for producers and their election,
-- delegations and refunds, some administration), and contracts/eosio.bios, eosio.boot and
-- eosio.wrap, which forward to privileged calls of the chain.
pub mod Prelude
pub mod Asset
pub mod Token
pub mod Msig
pub mod Wps
pub mod LimitAuth
pub mod Names
pub mod BlockInfo
pub mod Double
pub mod Resources
pub mod Ram
pub mod Powerup
pub mod Pay

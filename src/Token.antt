-- ===== src/Token.antt =====
-- contracts/eosio.token: src/eosio.token.cpp and include/eosio.token/eosio.token.hpp.
-- `stats` has one row in the scope of each symbol code, with that code as its key; `accounts` has
-- the scopes of the owners, with the symbol code as the key. A memo is its size in bytes. Who pays
-- for a row's memory and whom `require_recipient` notifies are the chain's affair and no part of
-- the state.
pub mod Rows
pub mod Effects
pub mod Invariant
pub mod History
pub mod Transfer
mod Tests
use wax_system_contracts.Prelude.{
  ℕ, ◌≡◌, Bool, true, false, not, ◌&&◌, Option, none, some, Result, ok, err, ◌>>=◌, ◌>>◌, check,
  after, or_fail, ◌==◌, ◌!=◌, leb, if◌then◌else◌, is_some, is_none, List, [], ◌∷◌,
}
use wax_system_contracts.Prelude.Int.{ℤ, pos, ◌-ℤ◌, leb_ℤ, ltb_ℤ, wrap64}
use wax_system_contracts.Prelude.Table
use wax_system_contracts.Prelude.Table.{Table}
use wax_system_contracts.Prelude.Scoped
use wax_system_contracts.Prelude.Scoped.{Scoped}
use wax_system_contracts.Asset.{Symbol, Asset, same_symbol, AssetLib, Chain, require_auth}

pub record CurrencyStats : Type 0 where
  pub supply : Asset
  pub max_supply : Asset
  pub issuer : ℕ

pub record Token : Type 0 where
  pub stats : Table CurrencyStats
  pub accounts : Scoped Asset

module _ (lib : AssetLib) where
  unfoldable pub create : ℕ → Chain → ℕ → Asset → Token → Result Token
  create self c issuer maximum_supply s = do
    let sym = maximum_supply.symbol
    require_auth c self
    check (lib.is_valid maximum_supply) "invalid supply"
    check (ltb_ℤ (pos 0) maximum_supply.amount) "max-supply must be positive"
    check (is_none (Table.find sym.code s.stats)) "token with symbol already exists"
    ok (record s {
      stats =
          Table.set sym.code
            (record {
              supply = record { amount = pos 0; symbol = sym };
              max_supply = maximum_supply;
              issuer = issuer;
            })
            s.stats;
    })

  unfoldable pub sub_balance : ℕ → Asset → Token → Result Token
  sub_balance owner value s = do
    let code = value.symbol.code
    from ← or_fail (Scoped.find owner code s.accounts) "no balance object found"
    check (leb_ℤ value.amount from.amount) "overdrawn balance"
    balance ← lib.minus from value
    ok (record s { accounts = Scoped.set owner code balance s.accounts })

  -- The branch of `add_balance` on the row that it found.
  unfoldable pub credit : Option Asset → Asset → Result Asset
  credit none value = ok value
  credit (some to) value = lib.plus to value

  unfoldable pub add_balance : ℕ → Asset → Token → Result Token
  add_balance owner value s = do
    let code = value.symbol.code
    balance ← credit (Scoped.find owner code s.accounts) value
    ok (record s { accounts = Scoped.set owner code balance s.accounts })

  unfoldable pub issue : Chain → ℕ → Asset → ℕ → Token → Result Token
  issue c to quantity memo_size s = do
    let sym = quantity.symbol
    check (lib.symbol_is_valid sym) "invalid symbol name"
    check (leb memo_size 256) "memo has more than 256 bytes"
    st ←
        or_fail (Table.find sym.code s.stats)
          "token with symbol does not exist, create token before issue"
    check (to == st.issuer) "tokens can only be issued to issuer account"
    require_auth c st.issuer
    check (lib.is_valid quantity) "invalid quantity"
    check (ltb_ℤ (pos 0) quantity.amount) "must issue positive quantity"
    check (same_symbol sym st.supply.symbol) "symbol precision mismatch"
    check (leb_ℤ quantity.amount (wrap64 (st.max_supply.amount -ℤ st.supply.amount)))
        "quantity exceeds available supply"
    supply ← lib.plus st.supply quantity
    add_balance st.issuer quantity
        (record s { stats = Table.set sym.code (record st { supply = supply }) s.stats })

  unfoldable pub retire : Chain → Asset → ℕ → Token → Result Token
  retire c quantity memo_size s = do
    let sym = quantity.symbol
    check (lib.symbol_is_valid sym) "invalid symbol name"
    check (leb memo_size 256) "memo has more than 256 bytes"
    st ← or_fail (Table.find sym.code s.stats) "token with symbol does not exist"
    require_auth c st.issuer
    check (lib.is_valid quantity) "invalid quantity"
    check (ltb_ℤ (pos 0) quantity.amount) "must retire positive quantity"
    check (same_symbol sym st.supply.symbol) "symbol precision mismatch"
    supply ← lib.minus st.supply quantity
    sub_balance st.issuer quantity
        (record s { stats = Table.set sym.code (record st { supply = supply }) s.stats })

  unfoldable pub transfer : Chain → ℕ → ℕ → Asset → ℕ → Token → Result Token
  transfer c from to quantity memo_size s = do
    check (from != to) "cannot transfer to self"
    require_auth c from
    check (c.is_account to) "to account does not exist"
    st ← or_fail (Table.find quantity.symbol.code s.stats) "unable to find key"
    check (lib.is_valid quantity) "invalid quantity"
    check (ltb_ℤ (pos 0) quantity.amount) "must transfer positive quantity"
    check (same_symbol quantity.symbol st.supply.symbol) "symbol precision mismatch"
    check (leb memo_size 256) "memo has more than 256 bytes"
    s' ← sub_balance from quantity s
    add_balance to quantity s'

  unfoldable pub open_account : Chain → ℕ → Symbol → ℕ → Token → Result Token
  open_account c owner symbol ram_payer s = do
    require_auth c ram_payer
    check (c.is_account owner) "owner account does not exist"
    st ← or_fail (Table.find symbol.code s.stats) "symbol does not exist"
    check (same_symbol st.supply.symbol symbol) "symbol precision mismatch"
    ok (
        if is_none (Scoped.find owner symbol.code s.accounts)
        then record s {
          accounts =
              Scoped.set owner symbol.code (record { amount = pos 0; symbol = symbol }) s.accounts;
        }
        else s)

  unfoldable pub close_account : Chain → ℕ → Symbol → Token → Result Token
  close_account c owner symbol s = do
    require_auth c owner
    balance ←
        or_fail (Scoped.find owner symbol.code s.accounts)
          "Balance row already deleted or never existed. Action won't have any effect."
    check (leb_ℤ balance.amount (pos 0) && leb_ℤ (pos 0) balance.amount)
        "Cannot close because the balance is not zero."
    ok (record s { accounts = Scoped.erase owner symbol.code s.accounts })

-- `get_supply` and `get_balance`, which other contracts call.
unfoldable pub get_supply : ℕ → Token → Result Asset
get_supply code s = do
  st ← or_fail (Table.find code s.stats) "invalid supply symbol code"
  ok st.supply

unfoldable pub get_balance : ℕ → ℕ → Token → Result Asset
get_balance owner code s =
    or_fail (Scoped.find owner code s.accounts) "no balance with specified symbol"

-- One action of the contract, with its arguments.
pub data Op : Type 0 where
  creates : ℕ → Asset → Op
  issues : ℕ → Asset → ℕ → Op
  retires : Asset → ℕ → Op
  transfers : ℕ → ℕ → Asset → ℕ → Op
  opens : ℕ → Symbol → ℕ → Op
  closes : ℕ → Symbol → Op

module _ (lib : AssetLib) (self : ℕ) where
  unfoldable pub apply : Chain → Op → Token → Result Token
  apply c (creates issuer maximum_supply) s = create lib self c issuer maximum_supply s
  apply c (issues to quantity memo_size) s = issue lib c to quantity memo_size s
  apply c (retires quantity memo_size) s = retire lib c quantity memo_size s
  apply c (transfers from to quantity memo_size) s = transfer lib c from to quantity memo_size s
  apply c (opens owner symbol ram_payer) s = open_account lib c owner symbol ram_payer s
  apply c (closes owner symbol) s = close_account lib c owner symbol s

  -- A history of transactions; one that fails leaves no trace.
  unfoldable pub run : List (Chain × Op) → Token → Token
  run [] s = s
  run ((c, op) ∷ ops) s = run ops (after s (apply c op s))

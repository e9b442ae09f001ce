-- ===== src/Asset.antt =====
-- Assets and symbols. The types `asset` and `symbol`, the checked operators `+=` and `-=` and the
-- validity tests come from the contract development toolkit, which is not in the repository: the
-- types are the data that the contracts read, the operators are the parameter `AssetLib`, and
-- `AssetLaws` is what the toolkit documents of them.
pub mod Sample
use wax_system_contracts.Prelude.{
  ℕ, ◌-◌, ◌^◌, ◌<◌, ◌≡◌, Bool, true, ◌&&◌, Result, ok, ◌>>◌, check, ◌==◌,
}
use wax_system_contracts.Prelude.Int.{ℤ, pos, negsuc, ◌+ℤ◌, ◌-ℤ◌, ◌≤ℤ◌, quot_ℤ}

pub record Symbol : Type 0 where
  pub code : ℕ
  pub precision : ℕ

pub record Asset : Type 0 where
  pub amount : ℤ
  pub symbol : Symbol

-- `symbol::operator==`
abbrev pub same_symbol : Symbol → Symbol → Bool
same_symbol a b = a.code == b.code && a.precision == b.precision

-- `asset::max_amount`
abbrev pub max_amount : ℕ
max_amount = 2 ^ 62 - 1

abbrev pub InRange : ℤ → Type 0
InRange a = (negsuc (max_amount - 1) ≤ℤ a) × (a ≤ℤ pos max_amount)

pub record AssetLib : Type 0 where
  -- `asset::operator+=` and `asset::operator-=`
  pub plus : Asset → Asset → Result Asset
  pub minus : Asset → Asset → Result Asset
  -- `asset::operator/` by an integer
  pub divide : Asset → ℕ → Result Asset
  -- `asset::is_valid` and `symbol::is_valid`
  pub is_valid : Asset → Bool
  pub symbol_is_valid : Symbol → Bool

-- The constructor of an asset checks it.
abbrev pub make_asset : AssetLib → ℤ → Symbol → Result Asset
make_asset lib amount symbol =
    let quantity : Asset = record { amount = amount; symbol = symbol } in
    do check (lib.is_valid quantity) "invalid asset"; ok quantity

-- The operators refuse two symbols and a result out of range, and are exact otherwise; a valid
-- asset is in range.
pub record AssetLaws (lib : AssetLib) : Type 0 where
  pub plus_exact :
      (a b : Asset)
      → same_symbol a.symbol b.symbol ≡ true
      → InRange (a.amount +ℤ b.amount)
      → lib.plus a b ≡ ok (record { amount = a.amount +ℤ b.amount; symbol = a.symbol })
  pub plus_ok :
      (a b c : Asset)
      → lib.plus a b ≡ ok c
      → (c.symbol ≡ a.symbol)
        × (b.symbol ≡ a.symbol)
        × (c.amount ≡ a.amount +ℤ b.amount)
        × InRange c.amount
  pub minus_exact :
      (a b : Asset)
      → same_symbol a.symbol b.symbol ≡ true
      → InRange (a.amount -ℤ b.amount)
      → lib.minus a b ≡ ok (record { amount = a.amount -ℤ b.amount; symbol = a.symbol })
  pub minus_ok :
      (a b c : Asset)
      → lib.minus a b ≡ ok c
      → (c.symbol ≡ a.symbol)
        × (b.symbol ≡ a.symbol)
        × (c.amount ≡ a.amount -ℤ b.amount)
        × InRange c.amount
  pub divide_exact :
      (a : Asset) (d : ℕ)
      → 0 < d
      → lib.divide a d ≡ ok (record { amount = quot_ℤ a.amount d; symbol = a.symbol })
  pub is_valid_range : (a : Asset) → lib.is_valid a ≡ true → InRange a.amount

-- What an action learns from the chain it runs on.
pub record Chain : Type 0 where
  pub has_auth : ℕ → Bool
  pub is_account : ℕ → Bool
  -- `require_auth( permission_level{ actor, permission } )`
  pub has_permission : ℕ → ℕ → Bool
  -- `current_time_point()`, in microseconds, and `time_point_sec(current_time_point())`
  pub now : ℕ
  pub now_sec : ℕ

-- An inline transfer of the system token.
pub record Transfer : Type 0 where
  pub from : ℕ
  pub to : ℕ
  pub quantity : Asset

-- `require_auth`
abbrev pub require_auth : Chain → ℕ → Result (Unit {0})
require_auth c n = check (c.has_auth n) "missing required authority"

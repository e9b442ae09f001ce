-- ===== src/Resources.antt =====
-- What an account of contracts/eosio.system has of RAM, NET and CPU: the table `userres`, the flags
-- in the rows of `voters` that say which resources the system manages itself, and the limits that the
-- chain enforces, which `get_resource_limits` and `set_resource_limits` read and write. The rows of
-- `voters` are seen here by their flags alone.
pub mod Admin
pub mod Grants
pub mod Agreement
pub mod Steps
pub mod Managed
mod Tests
use wax_system_contracts.Prelude.{
  ℕ, ◌+◌, ◌-◌, ◌/◌, ◌%◌, ◌≡◌, arith, Bool, true, false, not, ◌&&◌, Option, none, some, ◌==◌,
  if◌then◌else◌,
}
use wax_system_contracts.Prelude.Int.{ℤ, pos, ◌+ℤ◌, ltb_ℤ, wrap64}
use wax_system_contracts.Prelude.Table
use wax_system_contracts.Prelude.Scoped
use wax_system_contracts.Asset.{Asset, Symbol}

pub record UserResources : Type 0 where
  pub owner : ℕ
  pub net_weight : Asset
  pub cpu_weight : Asset
  pub ram_bytes : ℤ

abbrev pub is_zero : ℤ → Bool
is_zero a = not (ltb_ℤ a (pos 0)) && not (ltb_ℤ (pos 0) a)

-- `user_resources::is_empty`
abbrev pub is_empty_row : UserResources → Bool
is_empty_row r = is_zero r.net_weight.amount && is_zero r.cpu_weight.amount && is_zero r.ram_bytes

-- `flags1_fields`, and the bit of each.
pub data Field : Type 0 where
  ram_managed net_managed cpu_managed : Field

abbrev pub bit : Field → ℕ
bit ram_managed = 1
bit net_managed = 2
bit cpu_managed = 4

unfoldable pub has_field : ℕ → Field → Bool
has_field flags field = flags / bit field % 2 == 1

unfoldable pub set_field : ℕ → Field → Bool → ℕ
unfolding has_field
set_field flags field value =
    if value
    then if has_field flags field then flags else flags + bit field
    else if has_field flags field
    then flags - bit field
    else flags

pub has_field-set_field :
    (flags : ℕ) (f g : Field) (value : Bool)
    → has_field (set_field flags f value) g ≡ (if bit f == bit g then value else has_field flags g)
unfolding has_field set_field
has_field-set_field flags ram_managed ram_managed value = ground arith
has_field-set_field flags ram_managed net_managed value = ground arith
has_field-set_field flags ram_managed cpu_managed value = ground arith
has_field-set_field flags net_managed ram_managed value = ground arith
has_field-set_field flags net_managed net_managed value = ground arith
has_field-set_field flags net_managed cpu_managed value = ground arith
has_field-set_field flags cpu_managed ram_managed value = ground arith
has_field-set_field flags cpu_managed net_managed value = ground arith
has_field-set_field flags cpu_managed cpu_managed value = ground arith

pub record ResourceLimits : Type 0 where
  pub ram : ℤ
  pub net : ℤ
  pub cpu : ℤ

-- `userres` by the scope and key of the account, `flags1` by the owner of the row of `voters`.
pub record Resources : Type 0 where
  pub userres : Scoped.Scoped UserResources
  pub flags : Table.Table ℕ
  pub limits : ℕ → ResourceLimits

abbrev pub ram_gift_bytes : ℤ
ram_gift_bytes = pos 1400

abbrev pub row_of : ℕ → Resources → Option UserResources
row_of account s = Scoped.find account account s.userres

-- Whether the account has a row in `voters` with this flag.
abbrev pub is_managed : Field → ℕ → Resources → Bool
is_managed field account s = elim (Table.find account s.flags) [
  | none ↦ false
  | some flags ↦ has_field flags field
]

unfoldable pub set_resource_limits : ℕ → ResourceLimits → Resources → Resources
set_resource_limits account l s = record s { limits = λ a. if account == a then l else s.limits a }

abbrev pub put_row : ℕ → UserResources → Resources → Resources
put_row account r s = record s { userres = Scoped.set account account r s.userres }

abbrev pub max_ℤ : ℤ → ℤ → ℤ
max_ℤ a b = if ltb_ℤ a b then b else a

-- What an account has bought or staked, by its row.
abbrev pub quota : (UserResources → ℤ) → ℕ → Resources → ℤ
quota f account s = elim (row_of account s) [ none ↦ pos 0 | some r ↦ f r ]

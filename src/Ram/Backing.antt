-- ===== src/Ram/Backing.antt =====
-- Every byte of RAM is for sale or reserved, and every reserved byte belongs to an account.
use wax_system_contracts.Prelude.{
  ℕ, ◌+◌, ◌-◌, ◌%◌, ◌^◌, ◌≡◌, ◌∙◌, subst, Option, none, some, ok, arith, leb, inl, inr, ◌*◌,
  Bool-cases, Option-cases,
}
use wax_system_contracts.Prelude.Int.{ℤ, pos, quot_ℤ, ◌+ℤ◌, ◌-ℤ◌, wrap64}
use wax_system_contracts.Prelude.Scoped.Total.{total}
use wax_system_contracts.Asset.{Asset, Symbol, Chain}
use wax_system_contracts.Ram.{ExchangeState, Ram, RamLib}
use wax_system_contracts.Prelude.Int.Uint64.{
  to_uint64, wrap_uint64, to_uint64-add, to_uint64-sub, to_uint64-wrap64, to_uint64-lt,
}
use wax_system_contracts.Ram.Supply.{
  free_ram, update_ram_supply, add_supply, setram, init, to_int64,
}
use wax_system_contracts.Ram.Bytes.{bytes_of}

-- The bytes for sale and the reserved ones are all bytes that there are, as numbers of 64 bits.
abbrev IsForSale : {D : Type 0} → Option (ExchangeState D) → ℕ → ℕ → Type 0
IsForSale none reserved max_size = Unit
IsForSale (some m) reserved max_size =
    ◌≡◌ {A = ℕ} ((to_uint64 m.base.balance.amount + reserved) % 2 ^ 64) (max_size % 2 ^ 64)

pub record IsBacked {D : Type 0} (s : Ram D) : Type 0 where
  pub for_sale : IsForSale s.market s.total_ram_bytes_reserved s.max_ram_size
  pub owned : to_uint64 (total bytes_of s.resources.userres) ≡ s.total_ram_bytes_reserved

-- The base grows by a number of 64 bits, and so does the number of all bytes.
supply_grows :
    (a delta : ℤ) (reserved max_size : ℕ)
    → (to_uint64 a + reserved) % 2 ^ 64 ≡ max_size % 2 ^ 64
    → (to_uint64 (wrap64 (a +ℤ delta)) + reserved) % 2 ^ 64 ≡ (max_size + to_uint64 delta) % 2 ^ 64
supply_grows a delta reserved max_size e =
    omega (arith, to_uint64-wrap64 (a +ℤ delta), to_uint64-add a delta)

size_grows :
    (old new : ℕ)
    → (old + to_uint64 (wrap64 (to_int64 new -ℤ to_int64 old))) % 2 ^ 64 ≡ new % 2 ^ 64
size_grows old new = omega (
  arith,
  to_uint64-wrap64 (to_int64 new -ℤ to_int64 old),
  to_uint64-sub (to_int64 new) (to_int64 old),
  to_uint64-wrap64 (pos new),
  to_uint64-wrap64 (pos old),
)

module _ {D : Type 0} where
  pub update_ram_supply-IsBacked :
      (slot : ℕ) (s t : Ram D) → IsBacked s → update_ram_supply slot s ≡ ok t → IsBacked t
  unfolding update_ram_supply
  update_ram_supply-IsBacked slot s t b h = elim (Bool-cases (leb slot s.last_ram_increase)) [
    | inl early ↦ let t_is : s ≡ t = ground arith in subst IsBacked t_is b
    | inr late ↦ elim (Option-cases s.market) [
      | inl missing ↦ absurd (ground arith)
      | inr (m, found) ↦
          let new_ram : ℕ = (slot - s.last_ram_increase) * s.new_ram_per_block % 2 ^ 32 in
          let t_is : t ≡ record s {
            max_ram_size = wrap_uint64 (s.max_ram_size + new_ram);
            market = some (add_supply (pos new_ram) m);
            last_ram_increase = slot;
          } =
            ground arith in
          let before = rw found at b.for_sale in
          rw t_is (record {
            for_sale =
                supply_grows m.base.balance.amount (pos new_ram) s.total_ram_bytes_reserved
                  s.max_ram_size before
                ∙ omega arith;
            owned = b.owned;
          })
    ]
  ]

  module _ (names : RamLib D) where
    pub setram-IsBacked :
        (c : Chain) (size : ℕ) (s t : Ram D)
        → IsBacked s
        → setram names c size s ≡ ok t
        → IsBacked t
    unfolding setram
    setram-IsBacked c size s t b h = elim (Option-cases s.market) [
      | inl missing ↦ absurd (ground arith)
      | inr (m, found) ↦
          let delta = wrap64 (to_int64 size -ℤ to_int64 s.max_ram_size) in
          let t_is : t ≡ record s { market = some (add_supply delta m); max_ram_size = size } =
            ground arith in
          let before = rw found at b.for_sale in
          rw t_is (record {
            for_sale =
                supply_grows m.base.balance.amount delta s.total_ram_bytes_reserved s.max_ram_size
                  before
                ∙ size_grows s.max_ram_size size;
            owned = b.owned;
          })
    ]

    pub init-IsBacked :
        (c : Chain) (version : ℕ) (core : Symbol) (supply : Asset) (s t : Ram D)
        → IsBacked s
        → init names c version core supply s ≡ ok t
        → IsBacked t
    unfolding init
    init-IsBacked c version core supply s t b h =
        let sup : Asset = record { amount = pos 100000000000000; symbol = names.ramcore_symbol } in
        let bytes : Asset = record { amount = to_int64 (free_ram s); symbol = names.ram_symbol } in
        let tokens : Asset = record { amount = quot_ℤ supply.amount 1000; symbol = core } in
        let m : ExchangeState D = record {
          supply = sup;
          base = record { balance = bytes; weight = names.half };
          quote = record { balance = tokens; weight = names.half };
        } in
        let t_is : t ≡ record s { market = some m } = ground arith in
        rw t_is (record {
          for_sale = omega (
            arith,
            to_uint64-wrap64 (pos (free_ram s)),
            to_uint64-lt (total bytes_of s.resources.userres),
            b.owned,
          );
          owned = b.owned;
        })

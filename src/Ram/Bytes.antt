-- ===== src/Ram/Bytes.antt =====
-- The bytes that a trade moves, as numbers modulo 2^64.
use wax_system_contracts.Prelude.{
  ℕ, ◌+◌, ◌-◌, ◌%◌, ◌^◌, ◌≡◌, refl, ap, sym, ◌∙◌, true, some, ok, arith, inl, inr, Option-cases,
  Result-cases,
}
use wax_system_contracts.Prelude.Int.{ℤ, pos, ◌+ℤ◌, ◌-ℤ◌, wrap64}
use wax_system_contracts.Prelude.Scoped
use wax_system_contracts.Prelude.Scoped.Total.{total, total-set_new, total-set_old}
use wax_system_contracts.Asset.{Asset, Symbol, AssetLib, AssetLaws, same_symbol}
use wax_system_contracts.Double.{Double}
use wax_system_contracts.Resources.{UserResources, Resources, row_of, set_resource_limits}
use wax_system_contracts.Resources.Grants.{add_bytes, take_bytes, write_ram}
use wax_system_contracts.Ram.{ExchangeState, Connector}
use wax_system_contracts.Prelude.Int.Uint64.{
  to_uint64, to_uint64-add, to_uint64-sub, to_uint64-wrap64, to_uint64-lt,
}
use wax_system_contracts.Ram.Exchange.{direct_convert, trade, get_bancor_output}

abbrev pub bytes_of : UserResources → ℤ
bytes_of r = r.ram_bytes

pub write_ram-userres :
    (account : ℕ) (r : UserResources) (s : Resources)
    → (write_ram account r s).userres ≡ Scoped.set account account r s.userres
unfolding write_ram set_resource_limits
write_ram-userres account r s = ground arith

replaced_bytes :
    (t t' : Scoped.Scoped UserResources) (r new : ℤ)
    → total bytes_of t' +ℤ r ≡ total bytes_of t +ℤ new
    → (to_uint64 (total bytes_of t') + to_uint64 r) % 2 ^ 64
      ≡ (to_uint64 (total bytes_of t) + to_uint64 new) % 2 ^ 64
replaced_bytes t t' r new e =
    sym (to_uint64-add (total bytes_of t') r)
    ∙ ap to_uint64 e
    ∙ to_uint64-add (total bytes_of t) new

pub add_bytes-total :
    (core : Symbol) (account : ℕ) (bytes : ℤ) (s : Resources)
    → to_uint64 (total bytes_of (add_bytes core account bytes s).userres)
      ≡ (to_uint64 (total bytes_of s.userres) + to_uint64 bytes) % 2 ^ 64
unfolding add_bytes
add_bytes-total core account bytes s = elim (Option-cases (row_of account s)) [
  | inl missing ↦
      let zero_asset : Asset = record { amount = pos 0; symbol = core } in
      let r : UserResources = record {
        owner = account;
        net_weight = zero_asset;
        cpu_weight = zero_asset;
        ram_bytes = bytes;
      } in
      let rows : (add_bytes core account bytes s).userres ≡ Scoped.set account account r s.userres =
        ground (arith, write_ram-userres account r s) in
      rw (rows, total-set_new bytes_of account account r s.userres missing)
        (to_uint64-add (total bytes_of s.userres) bytes)
  | inr (r, found) ↦
      let r' : UserResources = record r { ram_bytes = wrap64 (r.ram_bytes +ℤ bytes) } in
      let rows : (add_bytes core account bytes s).userres
          ≡ Scoped.set account account r' s.userres =
        ground (arith, write_ram-userres account r' s) in
      let e =
        replaced_bytes s.userres (Scoped.set account account r' s.userres) r.ram_bytes
          (wrap64 (r.ram_bytes +ℤ bytes))
          (total-set_old bytes_of account account r' r s.userres found) in
      rw rows (
        omega (
          arith,
          e,
          to_uint64-wrap64 (r.ram_bytes +ℤ bytes),
          to_uint64-add r.ram_bytes bytes,
          to_uint64-lt (total bytes_of (Scoped.set account account r' s.userres)),
        ))
]

pub take_bytes-total :
    (account : ℕ) (r : UserResources) (bytes : ℤ) (s : Resources)
    → row_of account s ≡ some r
    → to_uint64 (total bytes_of (take_bytes account r bytes s).userres)
      ≡ (to_uint64 (total bytes_of s.userres) + 2 ^ 64 - to_uint64 bytes) % 2 ^ 64
unfolding take_bytes
take_bytes-total account r bytes s found =
    let r' : UserResources = record r { ram_bytes = wrap64 (r.ram_bytes -ℤ bytes) } in
    let e =
      replaced_bytes s.userres (Scoped.set account account r' s.userres) r.ram_bytes
        (wrap64 (r.ram_bytes -ℤ bytes))
        (total-set_old bytes_of account account r' r s.userres found) in
    rw (write_ram-userres account r' s) (
      omega (
        arith,
        e,
        to_uint64-wrap64 (r.ram_bytes -ℤ bytes),
        to_uint64-sub r.ram_bytes bytes,
        to_uint64-lt (total bytes_of (Scoped.set account account r' s.userres)),
        to_uint64-lt (total bytes_of s.userres),
        to_uint64-lt bytes,
      ))

module _ {D : Type 0} (lib : AssetLib) (laws : AssetLaws lib) (real : Double D) where
  trade-exact :
      (inp out : Connector D) (from : Asset) (to : Symbol) (q : Asset) (inp' out' : Connector D)
      → trade lib real inp out from to ≡ ok (q, inp', out')
      → (inp'.balance.amount ≡ inp.balance.amount +ℤ from.amount)
        × (out'.balance.amount ≡ out.balance.amount -ℤ q.amount)
        × (q.symbol ≡ to)
        × (inp'.balance.symbol ≡ inp.balance.symbol)
        × (out'.balance.symbol ≡ out.balance.symbol)
  unfolding trade
  trade-exact inp out from to q inp' out' h =
      let quantity : Asset = record {
        amount = get_bancor_output real inp.balance.amount out.balance.amount from.amount;
        symbol = to;
      } in
      elim (Result-cases (lib.plus inp.balance from)) [
        | inr (_, e) ↦ absurd (ground arith)
        | inl (taken, e) ↦ elim (Result-cases (lib.minus out.balance quantity)) [
          | inr (_, e2) ↦ absurd (ground arith)
          | inl (given, e2) ↦
              let p = laws.plus_ok inp.balance from taken e in
              let m = laws.minus_ok out.balance quantity given e2 in
              let inp'_is : inp' ≡ record inp { balance = taken } = ground arith in
              let out'_is : out' ≡ record out { balance = given } = ground arith in
              let q_is : q ≡ quantity = ground arith in
              rw (inp'_is, out'_is, q_is) (p.2, m.2, refl, p.0, m.0)
        ]
      ]

  -- A purchase takes bytes out of the base, and a sale puts them in.
  pub bought :
      (from : Asset) (to : Symbol) (es es' : ExchangeState D) (q : Asset)
      → same_symbol from.symbol es.quote.balance.symbol ≡ true
      → direct_convert lib real from to es ≡ ok (q, es')
      → es'.base.balance.amount ≡ es.base.balance.amount -ℤ q.amount
  unfolding direct_convert
  bought from to es es' q same h = elim (Result-cases (trade lib real es.quote es.base from to)) [
    | inr (_, e) ↦ absurd (ground arith)
    | inl ((q', quote, base), e) ↦
        ground (arith, trade-exact es.quote es.base from to q' quote base e)
  ]

  pub sold :
      (from : Asset) (to : Symbol) (es es' : ExchangeState D) (q : Asset)
      → to ≡ es.quote.balance.symbol
      → direct_convert lib real from to es ≡ ok (q, es')
      → es'.base.balance.amount ≡ es.base.balance.amount +ℤ from.amount
  unfolding direct_convert
  sold from to es es' q same h = elim (Result-cases (trade lib real es.base es.quote from to)) [
    | inr (_, e) ↦ absurd (ground arith)
    | inl ((q', base, quote), e) ↦
        ground (arith, trade-exact es.base es.quote from to q' base quote e)
  ]

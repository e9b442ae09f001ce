-- ===== src/Resources/Grants.antt =====
-- How the rows of `userres` change: RAM that is traded in src/delegate_bandwidth.cpp, bandwidth that
-- is staked there and granted in src/powerup.cpp, and the row of a new account in
-- src/eosio.system.cpp.
use wax_system_contracts.Prelude.{
  ℕ, Bool, not, ◌&&◌, Option, none, some, Result, ok, ◌>>=◌, ◌>>◌, ◌||◌, check, or_fail, is_none,
  if◌then◌else◌,
}
use wax_system_contracts.Prelude.Int.{ℤ, pos, ◌+ℤ◌, ◌-ℤ◌, leb_ℤ, wrap64}
use wax_system_contracts.Prelude.Scoped
use wax_system_contracts.Asset.{Asset, Symbol, AssetLib, make_asset}
use wax_system_contracts.Resources.{
  UserResources, ResourceLimits, Resources, ram_managed, net_managed, cpu_managed, ram_gift_bytes,
  row_of, put_row, is_zero, is_empty_row, is_managed, set_resource_limits, max_ℤ,
}

-- A row with new RAM is written, and the limit follows it unless the system manages it.
unfoldable pub write_ram : ℕ → UserResources → Resources → Resources
write_ram account r s =
    let s' = put_row account r s in
    if is_managed ram_managed account s
    then s'
    else set_resource_limits account
        (record (s.limits account) { ram = wrap64 (r.ram_bytes +ℤ ram_gift_bytes) }) s'

-- The rows of `buyram` and of `sellram`.
unfoldable pub add_bytes : Symbol → ℕ → ℤ → Resources → Resources
add_bytes core receiver bytes s = elim (row_of receiver s) [
  | none ↦
      let zero_asset : Asset = record { amount = pos 0; symbol = core } in
      write_ram receiver
        (record {
          owner = receiver;
          net_weight = zero_asset;
          cpu_weight = zero_asset;
          ram_bytes = bytes;
        })
        s
  | some r ↦ write_ram receiver (record r { ram_bytes = wrap64 (r.ram_bytes +ℤ bytes) }) s
]

-- The row that `sellram` sells from.
unfoldable pub sellable : ℕ → ℤ → Resources → Result UserResources
sellable account bytes s = do
  r ← or_fail (row_of account s) "no resource row"
  check (leb_ℤ bytes r.ram_bytes) "insufficient quota"
  ok r

unfoldable pub take_bytes : ℕ → UserResources → ℤ → Resources → Resources
take_bytes account r bytes s =
    write_ram account (record r { ram_bytes = wrap64 (r.ram_bytes -ℤ bytes) }) s

-- The limits after a change of bandwidth, which leaves managed resources alone.
abbrev pub new_limits : ℕ → UserResources → Resources → ResourceLimits
new_limits account r s =
    let l = s.limits account in
    record {
      ram =
          if is_managed ram_managed account s
          then l.ram
          else max_ℤ (wrap64 (r.ram_bytes +ℤ ram_gift_bytes)) l.ram;
      net = if is_managed net_managed account s then l.net else r.net_weight.amount;
      cpu = if is_managed cpu_managed account s then l.cpu else r.cpu_weight.amount;
    }

-- The end of `changebw`'s update of the totals, and of `adjust_resources`: the row is written or,
-- where nothing is left in it, erased.
unfoldable pub write_bandwidth : ℕ → UserResources → Resources → Resources
write_bandwidth account r s =
    let s' =
      if is_managed net_managed account s && is_managed cpu_managed account s
      then s
      else set_resource_limits account (new_limits account r s) s in
    if is_empty_row r
    then record s' { userres = Scoped.erase account account s'.userres }
    else put_row account r s'

unfoldable pub check_bandwidth : UserResources → Result (Unit {0})
check_bandwidth r = do
  check (leb_ℤ (pos 0) r.net_weight.amount) "insufficient staked total net bandwidth"
  check (leb_ℤ (pos 0) r.cpu_weight.amount) "insufficient staked total cpu bandwidth"

module _ (lib : AssetLib) where
  -- The row of `adjust_resources`, which adds to the bare amounts.
  unfoldable pub adjusted_row : Symbol → ℕ → ℤ → ℤ → Option UserResources → Result UserResources
  adjusted_row core account net_delta cpu_delta none = do
    net_weight ← make_asset lib net_delta core
    cpu_weight ← make_asset lib cpu_delta core
    ok (record {
      owner = account;
      net_weight = net_weight;
      cpu_weight = cpu_weight;
      ram_bytes = pos 0;
    })
  adjusted_row core account net_delta cpu_delta (some r) =
      let net = r.net_weight in
      let cpu = r.cpu_weight in
      ok (record r {
        net_weight = record net { amount = wrap64 (net.amount +ℤ net_delta) };
        cpu_weight = record cpu { amount = wrap64 (cpu.amount +ℤ cpu_delta) };
      })

  unfoldable pub adjust_resources : Symbol → Bool → ℕ → ℤ → ℤ → Resources → Result Resources
  adjust_resources core must_not_be_managed account net_delta cpu_delta s =
      if is_zero net_delta && is_zero cpu_delta then ok s else (do
        r ← adjusted_row core account net_delta cpu_delta (row_of account s)
        check_bandwidth r
        check
            (not must_not_be_managed
              || (not (is_managed net_managed account s) && not (is_managed cpu_managed account s)))
            "something is managed which shouldn't be"
        ok (write_bandwidth account r s))

  -- The totals of the receiver in `changebw`.
  unfoldable pub changed_row : ℕ → Asset → Asset → Option UserResources → Result UserResources
  changed_row receiver net_delta cpu_delta none = ok (record {
    owner = receiver;
    net_weight = net_delta;
    cpu_weight = cpu_delta;
    ram_bytes = pos 0;
  })
  changed_row receiver net_delta cpu_delta (some r) = do
    net_weight ← lib.plus r.net_weight net_delta
    cpu_weight ← lib.plus r.cpu_weight cpu_delta
    ok (record r { net_weight = net_weight; cpu_weight = cpu_weight })

  unfoldable pub change_totals : ℕ → Asset → Asset → Resources → Result Resources
  change_totals receiver net_delta cpu_delta s = do
    r ← changed_row receiver net_delta cpu_delta (row_of receiver s)
    check_bandwidth r
    ok (write_bandwidth receiver r s)

-- The resources of a new account.
unfoldable pub create_row : Symbol → ℕ → Resources → Result Resources
create_row core account s = do
  check (is_none (row_of account s))
      "could not insert object, most likely a uniqueness constraint was violated"
  let zero_asset : Asset = record { amount = pos 0; symbol = core }
  ok (
      set_resource_limits account (record { ram = pos 0; net = pos 0; cpu = pos 0 })
        (put_row account
          (record {
            owner = account;
            net_weight = zero_asset;
            cpu_weight = zero_asset;
            ram_bytes = pos 0;
          })
          s))

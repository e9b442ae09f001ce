-- ===== src/Ram/Exchange.antt =====
-- src/exchange_state.cpp: the exchange between two assets. Each conversion returns the asset that
-- comes out and the state after it.
use wax_system_contracts.Prelude.{not, ◌&&◌, Result, ok, err, ◌>>=◌, ◌>>◌, check, if◌then◌else◌}
use wax_system_contracts.Prelude.Int.{ℤ, pos, ◌+ℤ◌, ◌-ℤ◌, ltb_ℤ, wrap64}
use wax_system_contracts.Asset.{Asset, Symbol, AssetLib, same_symbol, make_asset}
use wax_system_contracts.Double.{Double}
use wax_system_contracts.Ram.{Connector, ExchangeState}

-- A result below zero is a rounding error.
abbrev pub at_least_zero : ℤ → ℤ
at_least_zero a = if ltb_ℤ a (pos 0) then pos 0 else a

module _ {D : Type 0} (real : Double D) where
  -- `1. + a / b`, raised to a power, less one, times b's total.
  abbrev growth : D → D → D → D → D
  growth total part of f = real.times total (
      real.minus (real.power (real.plus (real.literal 1 0) (real.over part of)) f)
        (real.literal 1 0))

  unfoldable pub get_bancor_output : ℤ → ℤ → ℤ → ℤ
  get_bancor_output inp_reserve out_reserve inp =
      let ib = real.of_int inp_reserve in
      let ob = real.of_int out_reserve in
      let in' = real.of_int inp in
      at_least_zero (real.to_int (real.over (real.times in' ob) (real.plus ib in')))

  unfoldable pub get_bancor_input : ℤ → ℤ → ℤ → ℤ
  get_bancor_input out_reserve inp_reserve out =
      let ob = real.of_int out_reserve in
      let ib = real.of_int inp_reserve in
      at_least_zero (
        real.to_int (real.over (real.times ib (real.of_int out)) (real.minus ob (real.of_int out))))

module _ {D : Type 0} (lib : AssetLib) (real : Double D) where
  unfoldable pub convert_to_exchange :
      Asset → Connector D → Asset → Result (Asset × Asset × Connector D)
  convert_to_exchange supply reserve payment = do
    let grown =
        growth real (real.of_int supply.amount) (real.of_int payment.amount)
          (real.of_int reserve.balance.amount) reserve.weight
    let dS = if real.less grown (real.literal 0 0) then real.literal 0 0 else grown
    balance ← lib.plus reserve.balance payment
    tmp ← make_asset lib (real.to_int dS) supply.symbol
    ok (
      tmp,
      record supply { amount = wrap64 (supply.amount +ℤ real.to_int dS) },
      record reserve { balance = balance },
    )

  unfoldable pub convert_from_exchange :
      Asset → Connector D → Asset → Result (Asset × Asset × Connector D)
  convert_from_exchange supply reserve tokens = do
    let dS = real.of_int (wrap64 (pos 0 -ℤ tokens.amount))
    let grown =
        growth real (real.of_int reserve.balance.amount) dS (real.of_int supply.amount)
          (real.over (real.literal 1 0) reserve.weight)
    let dR = if real.less (real.literal 0 0) grown then real.literal 0 0 else grown
    let out = real.to_int (real.negate dR)
    let balance = reserve.balance
    supply' ← lib.minus supply tokens
    tmp ← make_asset lib out reserve.balance.symbol
    ok (
      tmp,
      supply',
      record reserve { balance = record balance { amount = wrap64 (balance.amount -ℤ out) } },
    )

  unfoldable pub convert : Asset → Symbol → ExchangeState D → Result (Asset × ExchangeState D)
  convert from to es = do
    check (not (same_symbol from.symbol to)) "cannot convert to the same symbol"
    if same_symbol from.symbol es.base.balance.symbol && same_symbol to es.quote.balance.symbol
        then (do
          (tmp, supply, base) ← convert_to_exchange es.supply es.base from
          (out, supply', quote) ← convert_from_exchange supply es.quote tmp
          ok (out, record { supply = supply'; base = base; quote = quote }))
        else if same_symbol from.symbol es.quote.balance.symbol
            && same_symbol to es.base.balance.symbol
        then (do
          (tmp, supply, quote) ← convert_to_exchange es.supply es.quote from
          (out, supply', base) ← convert_from_exchange supply es.base tmp
          ok (out, record { supply = supply'; base = base; quote = quote }))
        else err "invalid conversion"

  -- One connector takes the payment, and the other gives what it is worth.
  unfoldable pub trade :
      Connector D → Connector D → Asset → Symbol → Result (Asset × Connector D × Connector D)
  unfolding get_bancor_output
  trade inp out from to = do
    let quantity : Asset = record {
      amount = get_bancor_output real inp.balance.amount out.balance.amount from.amount;
      symbol = to;
    }
    taken ← lib.plus inp.balance from
    given ← lib.minus out.balance quantity
    ok (quantity, record inp { balance = taken }, record out { balance = given })

  unfoldable pub direct_convert :
      Asset → Symbol → ExchangeState D → Result (Asset × ExchangeState D)
  direct_convert from to es = do
    check (not (same_symbol from.symbol to)) "cannot convert to the same symbol"
    if same_symbol from.symbol es.base.balance.symbol && same_symbol to es.quote.balance.symbol
        then (do
          (out, base, quote) ← trade es.base es.quote from to
          ok (out, record es { base = base; quote = quote }))
        else if same_symbol from.symbol es.quote.balance.symbol
            && same_symbol to es.base.balance.symbol
        then (do
          (out, quote, base) ← trade es.quote es.base from to
          ok (out, record es { base = base; quote = quote }))
        else err "invalid conversion"

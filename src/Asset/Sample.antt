-- ===== src/Asset/Sample.antt =====
-- A concrete `AssetLib` that meets `AssetLaws`, for runs and witnesses.
use wax_system_contracts.Prelude.{◌-◌, ◌≡◌, refl, Bool, true, ◌&&◌, Result, ok, check, ◌>>◌, arith}
use wax_system_contracts.Prelude.Int.{ℤ, pos, negsuc, ◌+ℤ◌, ◌-ℤ◌, leb_ℤ, quot_ℤ}
use wax_system_contracts.Asset.{Asset, same_symbol, AssetLib, AssetLaws, max_amount, InRange}

in_range : ℤ → Bool
in_range a = leb_ℤ (negsuc (max_amount - 1)) a && leb_ℤ a (pos max_amount)

abbrev combine : (ℤ → ℤ → ℤ) → Asset → Asset → Result Asset
combine op a b = do
  check (same_symbol a.symbol b.symbol) "attempt to combine assets with different symbol"
  check (in_range (op a.amount b.amount)) "overflow"
  ok (record { amount = op a.amount b.amount; symbol = a.symbol })

unfoldable pub sample_lib : AssetLib
unfolding in_range ◌+ℤ◌ ◌-ℤ◌
sample_lib = record {
  plus = combine (λ a b. a +ℤ b);
  minus = combine (λ a b. a -ℤ b);
  divide = λ a d. ok (record { amount = quot_ℤ a.amount d; symbol = a.symbol });
  is_valid = λ a. in_range a.amount;
  symbol_is_valid = λ s. true;
}

module _ (op : ℤ → ℤ → ℤ) where
  combine_exact :
      (a b : Asset)
      → same_symbol a.symbol b.symbol ≡ true
      → InRange (op a.amount b.amount)
      → combine op a b ≡ ok (record { amount = op a.amount b.amount; symbol = a.symbol })
  unfolding in_range
  combine_exact a b same range = ground arith

  combine_ok :
      (a b c : Asset)
      → combine op a b ≡ ok c
      → (c.symbol ≡ a.symbol)
        × (b.symbol ≡ a.symbol)
        × (c.amount ≡ op a.amount b.amount)
        × InRange c.amount
  unfolding in_range
  combine_ok a b c h = (ground arith, ground arith, ground arith, ground arith)

in_range_sound : (a : ℤ) → in_range a ≡ true → InRange a
unfolding in_range
in_range_sound a h = ground arith

pub sample_laws : AssetLaws sample_lib
unfolding sample_lib
sample_laws = record {
  plus_exact = combine_exact (λ a b. a +ℤ b);
  plus_ok = combine_ok (λ a b. a +ℤ b);
  minus_exact = combine_exact (λ a b. a -ℤ b);
  minus_ok = combine_ok (λ a b. a -ℤ b);
  divide_exact = λ a d h. refl;
  is_valid_range = λ a h. in_range_sound a.amount h;
}

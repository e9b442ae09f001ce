-- ===== src/Prelude/Int/Uint64.antt =====
-- Numbers of 64 bits without a sign, and the integers modulo 2^64 that they stand for.
use wax_system_contracts.Prelude.Int.{ℤ, pos, negsuc, ◌+ℤ◌, ◌-ℤ◌, wrap64}
use Prim.Native.Nat.{ℕ, ◌+◌, ◌-◌, ◌%◌, ◌^◌, ◌<◌}
use mathlib.Core.Path.{◌≡◌}
use native.Mathlib.Omega.{arith}

-- The conversion of an int64_t to a uint64_t.
abbrev pub to_uint64 : ℤ → ℕ
to_uint64 (pos n) = n % 2 ^ 64
to_uint64 (negsuc n) = 2 ^ 64 - 1 - n % 2 ^ 64

-- A uint64_t result.
abbrev pub wrap_uint64 : ℕ → ℕ
wrap_uint64 n = n % 2 ^ 64

pub to_uint64-add : (a b : ℤ) → to_uint64 (a +ℤ b) ≡ (to_uint64 a + to_uint64 b) % 2 ^ 64
unfolding ◌+ℤ◌
to_uint64-add a b = ground arith

pub to_uint64-sub : (a b : ℤ) → (to_uint64 (a -ℤ b) + to_uint64 b) % 2 ^ 64 ≡ to_uint64 a
unfolding ◌-ℤ◌
to_uint64-sub a b = ground arith

pub to_uint64-wrap64 : (a : ℤ) → to_uint64 (wrap64 a) ≡ to_uint64 a
unfolding wrap64
to_uint64-wrap64 (pos n) = ground arith
to_uint64-wrap64 (negsuc n) = ground arith

pub to_uint64-lt : (a : ℤ) → to_uint64 a < 2 ^ 64
to_uint64-lt a = ground arith

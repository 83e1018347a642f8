-- ===== src/Base/Ints.antt =====
-- `int`, as integers: `negsuc n` is -(n + 1).
use Prim.Native.Nat.{ℕ, ◌-◌, ◌%◌, ◌^◌, ◌<◌}
use mathlib.Core.Path.{◌≡◌}
use native.Mathlib.Omega.{arith}
use common.Base.Tests.{ltb, if◌then◌else◌}

pub data ℤ : Type 0 where
  pos : ℕ → ℤ
  negsuc : ℕ → ℤ

-- `static_cast<int>(n)` of an unsigned value, at 32 bits
abbrev pub to_int : ℕ → ℤ
to_int n = if ltb (n % 2 ^ 32) (2 ^ 31) then pos (n % 2 ^ 32) else negsuc (2 ^ 32 - n % 2 ^ 32 - 1)

-- Below 2 ^ 31 the cast keeps the value.
pub to_int-lt : (n : ℕ) → n < 2 ^ 31 → to_int n ≡ pos n
to_int-lt n h = ground arith

-- ===== src/Base/Int.antt =====
-- A C `int` as an integer: its low 32 bits in two's complement.
use Prim.Native.Nat.{ℕ, ◌-◌, ◌%◌, ◌^◌, ◌<◌}
use mathlib.Core.Path.{◌≡◌}
use native.Mathlib.Omega.{arith}
use greko.Base.Tests.{ltb, if◌then◌else◌}

-- `negsuc n` is -(n + 1).
pub data ℤ : Type 0 where
  pos : ℕ → ℤ
  negsuc : ℕ → ℤ

-- (int)x
unfoldable pub to_int : ℕ → ℤ
to_int x = let y = x % 2 ^ 32 in if ltb y (2 ^ 31) then pos y else negsuc (2 ^ 32 - y - 1)

pub to_int-pos : (x : ℕ) → x < 2 ^ 31 → to_int x ≡ pos x
unfolding to_int
to_int-pos x h = ground arith

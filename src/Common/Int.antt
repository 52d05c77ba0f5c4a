-- ===== src/Common/Int.antt =====
-- The integers that a C function may return, over the native numbers. `negsuc n` is -(n + 1).
use Prim.Native.Nat.{ℕ, ◌-◌}
use model_lib.Common.Tests.{if◌then◌else◌, leb}

pub data ℤ : Type 0 where
  pos : ℕ → ℤ
  negsuc : ℕ → ℤ

-- a - b, as an integer.
abbrev pub sub_ℕ : ℕ → ℕ → ℤ
sub_ℕ a b = if leb b a then pos (a - b) else negsuc (b - a - 1)

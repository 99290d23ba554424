-- ===== src/Common/Int.antt =====
-- Signed differences, for the durations that the source does not clamp at zero.
use Prim.Native.Nat.{ℕ, ◌-◌}
use pipe_lens.Common.Tests.{leb, if◌then◌else◌}

-- `negsuc n` is -(n + 1).
pub data ℤ : Type 0 where
  pos : ℕ → ℤ
  negsuc : ℕ → ℤ

-- a - b, as an integer.
abbrev pub sub_ℕ : ℕ → ℕ → ℤ
sub_ℕ a b = if leb b a then pos (a - b) else negsuc (b - a - 1)

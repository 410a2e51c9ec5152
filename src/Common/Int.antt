-- ===== src/Common/Int.antt =====
-- Signed integers: `negsuc n` is -(n + 1).
use gonfs.Common.{ℕ, ◌-◌, ◌^◌, ltb, if◌then◌else◌}

pub data ℤ : Type 0 where
  pos : ℕ → ℤ
  negsuc : ℕ → ℤ

-- int64(v) for a uint64 v
abbrev pub int64 : ℕ → ℤ
int64 v = if ltb v (2 ^ 63) then pos v else negsuc (2 ^ 64 - v - 1)

-- ===== src/Common/Int.antt =====
-- Signed differences of natural numbers: Go's `time.Duration` where it may be negative.
use Prim.Native.Nat.{ℕ, suc, ◌+◌, ◌-◌}
use registration_operator.Common.Equality.{if◌then◌else◌, leb}

-- `negsuc n` is -(n + 1).
pub data ℤ : Type 0 where
  pos : ℕ → ℤ
  negsuc : ℕ → ℤ

-- a - b, as an integer.
abbrev pub sub_ℕ : ℕ → ℕ → ℤ
sub_ℕ a b = if leb b a then pos (a - b) else negsuc (b - a - 1)

-- A time and a duration; a time before 0 does not occur.
abbrev pub plus_duration : ℕ → ℤ → ℕ
plus_duration t (pos d) = t + d
plus_duration t (negsuc d) = t - suc d

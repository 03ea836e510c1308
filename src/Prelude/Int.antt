-- ===== src/Prelude/Int.antt =====
-- Signed integers over the native numbers: the replies of the Lua scripts, and durations in seconds.
use Prim.Native.Nat.{ℕ, ◌/◌, ◌*◌}
use mathlib.Core.Bool.{Bool}
use geo_spatial_dispatch_ser.Prelude.Tests.{if◌then◌else◌}

-- `negsuc n` is -(n + 1).
pub data ℤ : Type 0 where
  pos : ℕ → ℤ
  negsuc : ℕ → ℤ

-- Redis's 1 or 0.
abbrev pub flag : Bool → ℤ
flag b = pos (if b then 1 else 0)

-- Durations are nanoseconds.
abbrev pub second : ℕ
second = 1000000000

-- The time to live of `EX n`, for `n` the whole seconds of a duration.
abbrev pub whole_seconds : ℕ → ℕ
whole_seconds duration = duration / second * second

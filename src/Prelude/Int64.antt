-- ===== src/Prelude/Int64.antt =====
-- Go's int64 and time.Duration. A value is its bit pattern, a number below 2 ^ 64: the patterns
-- from 2 ^ 63 on stand for the negative numbers. So a conversion to or from uint64 changes nothing.
use Prim.Native.Nat.{ℕ, ◌+◌, ◌-◌, ◌/◌, ◌%◌, ◌^◌}
use mathlib.Core.Bool.{Bool, ◌&&◌}
use futureq_v.Prelude.Tests.{ltb}

-- `a < 0`
abbrev pub is_negative : ℕ → Bool
is_negative a = ltb (2 ^ 63 - 1) a

-- `a > 0`
abbrev pub is_positive : ℕ → Bool
is_positive a = ltb 0 a && ltb a (2 ^ 63)

-- `a + b`, which wraps around.
abbrev pub add_int64 : ℕ → ℕ → ℕ
add_int64 a b = (a + b) % 2 ^ 64

-- `a < b`
abbrev pub lt_int64 : ℕ → ℕ → Bool
lt_int64 a b = ltb ((a + 2 ^ 63) % 2 ^ 64) ((b + 2 ^ 63) % 2 ^ 64)

-- `d.Milliseconds()`, for a positive duration of `d` nanoseconds.
abbrev pub milliseconds : ℕ → ℕ
milliseconds d = d / 1_000_000

-- ===== src/Base/Time.antt =====
-- time.Time as the nanoseconds since Go's zero time, which IsZero tests for; no time of the program
-- lies before it. time.Duration as nanoseconds; the durations of the program are not negative, and
-- a difference that is negative in Go is 0 here, which is said where it matters.
use crypto_screener.Base.Tests.{ltb, eqb}
use Prim.Native.Nat.{ℕ, ◌*◌}
use mathlib.Core.Bool.{Bool}

abbrev pub Time : Type 0
Time = ℕ

abbrev pub Duration : Type 0
Duration = ℕ

abbrev pub is_zero_time : Time → Bool
is_zero_time t = eqb t 0

abbrev pub before : Time → Time → Bool
before a b = ltb a b

abbrev pub millisecond : Duration
millisecond = 1000000

abbrev pub second : Duration
second = 1000 * millisecond

abbrev pub minute : Duration
minute = 60 * second

abbrev pub hour : Duration
hour = 60 * minute

-- ===== src/Go/Time.antt =====
-- Go's time.Time as the nanoseconds since its zero value, the start of year 1: the zero value is 0,
-- and `IsZero` tests for it. Durations are numbers of nanoseconds.
use freno.Prelude.{ℕ, ◌+◌, ◌-◌, Bool, ltb, ◌==◌}
use freno.Go.Int.{ℤ, pos, negsuc}

abbrev pub Time : Type 0
Time = ℕ

abbrev pub time_zero : Time
time_zero = 0

abbrev pub is_zero : Time → Bool
is_zero t = t == 0

-- t.Before(u)
abbrev pub before : Time → Time → Bool
before t u = ltb t u

abbrev pub second : ℕ
second = 1000000000

abbrev pub minute : ℕ
minute = 60000000000

-- t.Add(d). No time of the program stands within the 292 years of a duration from year 1, so the
-- subtraction does not stop at 0.
unfoldable pub add_duration : Time → ℤ → Time
add_duration t (pos n) = t + n
add_duration t (negsuc n) = t - (n + 1)

-- now.Sub(t) for a time that is not later than `now`.
unfoldable pub since : Time → Time → ℕ
since now t = now - t

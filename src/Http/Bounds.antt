-- ===== src/Http/Bounds.antt =====
-- The minutes of a route as a duration of 64 bits.
use freno.Prelude.{ℕ, ◌+◌, ◌*◌, ◌^◌, ◌≤◌, ◌<◌, ◌≡◌, ◌≢◌, ◌↔◌, arith}
use freno.Go.Int.{ℤ, pos, negsuc, int64, scale64}
use freno.Go.Time.{Time, minute, add_duration}
use freno.Http.{expire_at_of}

-- The end of a throttle or a skip of some minutes, other than none, is that many minutes from now
-- exactly when there are at most 153722867 of them.
pub expire_at_of_iff :
    (now : Time) (n : ℕ) → 0 < n → (expire_at_of now (pos n) ≡ now + n * minute) ↔ (n ≤ 153722867)
unfolding expire_at_of scale64 int64 add_duration
expire_at_of_iff now n h = ground arith

-- The end lies within 2 ^ 63 nanoseconds of now, whatever the minutes.
pub expire_at_of-bounded :
    (now : Time) (minutes : ℤ)
    → minutes ≢ pos 0
    → (expire_at_of now minutes < now + 2 ^ 63) × (now ≤ expire_at_of now minutes + 2 ^ 63)
unfolding expire_at_of scale64 int64 add_duration
expire_at_of-bounded now (pos n) z = ground (arith, z)
expire_at_of-bounded now (negsuc n) z = ground arith

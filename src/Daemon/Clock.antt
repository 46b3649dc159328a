-- ===== src/Daemon/Clock.antt =====
-- Durations and instants of Go's package time, as the daemon uses them
-- (daemon/internal/daemon/security.go). A duration is a signed 64-bit count of nanoseconds, and the
-- clock a number of nanoseconds since 1970.
use next_deploy.Common.{ℕ, ◌+◌, ◌-◌, ◌^◌, ltb, leb, if◌then◌else◌}
use next_deploy.Common.Int.{ℤ, pos, negsuc, ◌-ℤ◌, ◌*ℤ◌, ltb_ℤ}

abbrev pub second : ℕ
second = 1_000_000_000

-- The largest duration; the smallest is -max_duration - 1.
abbrev pub max_duration : ℕ
max_duration = 9_223_372_036_854_775_807

-- What Time.Sub does with a difference that no duration holds.
saturate : ℤ → ℤ
saturate (pos n) = if ltb max_duration n then pos max_duration else pos n
saturate (negsuc n) = if ltb max_duration n then negsuc max_duration else negsuc n

-- t.Sub(u)
unfoldable pub sub_time : ℤ → ℤ → ℤ
unfolding saturate ◌-ℤ◌
sub_time t u = saturate (t -ℤ u)

-- -d on 64 bits: the smallest duration is its own negation.
unfoldable pub neg_duration : ℤ → ℤ
neg_duration (pos n) = if leb n 0 then pos 0 else negsuc (n - 1)
neg_duration (negsuc n) = if leb max_duration n then negsuc n else pos (n + 1)

-- time.Unix(ts, 0), in nanoseconds since 1970. Internally the seconds count from the year 1, so
-- that the last 62135596800 values of an int64 wrap into the past.
unfoldable pub unix_time : ℤ → ℤ
unfolding ◌*ℤ◌ ◌-ℤ◌
unix_time ts =
    if ltb_ℤ (pos (max_duration - 62_135_596_800)) ts
    then (ts -ℤ pos (2 ^ 64)) *ℤ pos second
    else ts *ℤ pos second

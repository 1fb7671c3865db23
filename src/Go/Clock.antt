-- ===== src/Go/Clock.antt =====
-- `time.Time` and `time.Duration`: nanoseconds, a time counted from the Unix epoch.
use delayed_notifier.Prelude.{ℕ, suc, ◌-◌, ◌*◌, ◌/◌, ltb, if◌then◌else◌}
use delayed_notifier.Prelude.Int.{ℤ, pos, negsuc, ◌+ℤ◌, ◌-ℤ◌, ◌≤ℤ◌, half_64}

abbrev pub Time : Type 0
Time = ℤ

abbrev pub Duration : Type 0
Duration = ℤ

abbrev pub nanos_per_milli : ℕ
nanos_per_milli = 1000000

abbrev pub nanos_per_second : ℕ
nanos_per_second = 1000000000

-- Two times less than a microsecond apart.
abbrev pub Near : Time → Time → Type 0
Near t u = (t ≤ℤ u +ℤ pos 999) × (u ≤ℤ t +ℤ pos 999)

-- The zero `time.Time`, January 1 of the year 1.
abbrev pub zero_time : Time
zero_time = negsuc (62135596800 * 1000000000 - 1)

-- `t.Sub(u)`: a difference that does not fit is the largest or the smallest Duration.
unfoldable pub saturate : ℤ → Duration
saturate (pos n) = if ltb n half_64 then pos n else pos (half_64 - 1)
saturate (negsuc n) = if ltb n half_64 then negsuc n else negsuc (half_64 - 1)

-- `time.Until(t)` where the clock shows `now`
unfoldable pub time_until : Time → Time → Duration
unfolding saturate
time_until now t = saturate (t -ℤ now)

-- `d.Milliseconds()`, which truncates towards zero
unfoldable pub milliseconds : Duration → ℤ
milliseconds (pos n) = pos (n / nanos_per_milli)
milliseconds (negsuc n) = pos 0 -ℤ pos (suc n / nanos_per_milli)

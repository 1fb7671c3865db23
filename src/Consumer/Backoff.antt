-- ===== src/Consumer/Backoff.antt =====
-- `calculateExponentialBackoff` of internal/consumer/consumer.go.
use delayed_notifier.Prelude.{suc, ◌-◌, ◌*◌, ◌/◌, ◌^◌, ltb, if◌then◌else◌}
use delayed_notifier.Prelude.Int.{ℤ, pos, negsuc, half_64, to_int64}
use delayed_notifier.Go.Clock.{Duration, nanos_per_second}

-- `time.Duration(5.0 * math.Pow(2, float64(attempt)))`. The product is exact in a float64 where it
-- is below 2 ^ 63; above, the conversion to int64 has no value that Go fixes, and this is amd64's.
abbrev delay_seconds : ℤ → ℤ
delay_seconds (pos k) = if ltb (5 * 2 ^ k) half_64 then pos (5 * 2 ^ k) else negsuc (half_64 - 1)
delay_seconds (negsuc k) = pos (5 / 2 ^ suc k)

-- `d * time.Second`, an int64 product.
abbrev times_second : ℤ → Duration
times_second (pos n) = to_int64 (pos (n * nanos_per_second))
times_second (negsuc n) = to_int64 (negsuc (suc n * nanos_per_second - 1))

unfoldable pub calculate_exponential_backoff : ℤ → Duration
unfolding to_int64
calculate_exponential_backoff attempt = times_second (delay_seconds attempt)

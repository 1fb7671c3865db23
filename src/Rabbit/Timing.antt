-- ===== src/Rabbit/Timing.antt =====
-- When the messages that `Publish` and `PublishRetry` leave with the broker expire.
use delayed_notifier.Prelude.{ℕ, ◌+◌, ◌*◌, ◌≤◌, ◌<◌, ◌≡◌, refl, arith, String, true, ap, ◌∙◌}
use delayed_notifier.Prelude.Int.{ℤ, pos, pos_part, ◌-ℤ◌, ◌≤ℤ◌, half_64}
use delayed_notifier.Go.Errors.{ok}
use delayed_notifier.Go.Action.{◌>>=◌}
use delayed_notifier.Go.Clock.{Time, time_until, milliseconds, nanos_per_milli}
use delayed_notifier.Go.Decimal.{format_int, parse_int}
use delayed_notifier.Go.Decimal.RoundTrip.{parse_int-format_int}
use delayed_notifier.Domain.Model.{Notification}
use delayed_notifier.Domain.Json.{JsonCodec}
use delayed_notifier.Rabbit.Channel.{Channel, Publishing}
use delayed_notifier.Rabbit.Topology.{wait_exchange}
use delayed_notifier.Rabbit.Queue.{publish_delay, message, publish}

-- The delay in whole milliseconds; the past counts as now.
abbrev pub delay_ms : Time → Time → ℕ
delay_ms now t = pos_part (milliseconds (publish_delay now t))

delay-nonneg : (now t : Time) → milliseconds (publish_delay now t) ≡ pos (delay_ms now t)
unfolding publish_delay time_until milliseconds
delay-nonneg now t = ground arith

delay-le : (now t : Time) → delay_ms now t ≤ 9223372036854
unfolding publish_delay time_until milliseconds
delay-le now t = ground arith

pub delay_past : (now t : Time) → t ≤ℤ now → delay_ms now t ≡ 0
unfolding publish_delay time_until milliseconds ◌-ℤ◌
delay_past now t past = ground arith

-- For a time less than 2 ^ 63 ns ahead, or past, the delay that `Publish` computes ends at that
-- time, or less than a millisecond before it, and a past time counts as now.
pub delay_exact :
    (now t : Time)
    → pos_part (t -ℤ now) < half_64
    → (delay_ms now t * nanos_per_milli ≤ pos_part (t -ℤ now))
      × (pos_part (t -ℤ now) < delay_ms now t * nanos_per_milli + nanos_per_milli)
unfolding publish_delay time_until milliseconds ◌-ℤ◌
delay_exact now t near = ground arith

-- The expiration reads back as the delay in milliseconds.
pub expires_after :
    (body : String) (now t : Time)
    → parse_int (message body (publish_delay now t)).expiration ≡ ok (pos (delay_ms now t))
expires_after body now t =
    ap (λ (d : ℤ). parse_int (format_int d)) (delay-nonneg now t)
    ∙ parse_int-format_int (pos (delay_ms now t)) (omega (arith, delay-le now t))

-- Where the notification marshals, `Publish` hands the result to the wait exchange with an empty
-- routing key, as a persistent message. If the scheduled time is less than 2 ^ 63 ns ahead or past,
-- its expiration reads back as a number of milliseconds that ends at that time or less than a
-- millisecond before it, and is 0 where it is past.
pub publish_message :
    {S : Type 0} (json : JsonCodec) (ch : Channel S) (now : Time) (n : Notification) (s : S)
    (body : String)
    → json.marshal n ≡ ok body
    → pos_part (n.scheduled_at -ℤ now) < half_64
    → (msg : Publishing) × (publish json ch now n s ≡ ch.publish wait_exchange "" msg s)
      × (msg.body ≡ body)
      × (msg.persistent ≡ true)
      × (ms : ℕ) × (parse_int msg.expiration ≡ ok (pos ms))
      × (ms * nanos_per_milli ≤ pos_part (n.scheduled_at -ℤ now))
      × (pos_part (n.scheduled_at -ℤ now) < ms * nanos_per_milli + nanos_per_milli)
unfolding publish
publish_message json ch now n s body written near =
    let t = n.scheduled_at in
    (
      message body (publish_delay now t),
      rw (written, ◌>>=◌),
      refl,
      refl,
      delay_ms now t,
      expires_after body now t,
      (delay_exact now t near).0,
      (delay_exact now t near).1,
    )

-- ===== src/Tests/Edges.antt =====
-- Examples for Rabbit and Go.Decimal.
use delayed_notifier.Prelude.{ℕ, ◌*◌, ◌+◌, ◌≤◌, ◌<◌, ◌≡◌, refl, List, [], ◌∷◌, true, String, arith}
use delayed_notifier.Prelude.Int.{pos, negsuc, pos_part, ◌-ℤ◌, half_64}
use delayed_notifier.Go.Clock.{nanos_per_milli}
use delayed_notifier.Go.Errors.{ok}
use delayed_notifier.Go.Decimal.{parse_int, format_int}
use delayed_notifier.Go.Decimal.RoundTrip.{parse_int-format_int}
use delayed_notifier.Rabbit.Channel.{Channel, Publishing}
use delayed_notifier.Rabbit.Topology.{wait_exchange}
use delayed_notifier.Rabbit.Queue.{publish}
use delayed_notifier.Rabbit.Timing.{publish_message}
use delayed_notifier.Tests.Data.{json, note}

parse_int-format_int_example : parse_int (format_int (negsuc 1204)) ≡ ok (negsuc 1204)
parse_int-format_int_example = parse_int-format_int (negsuc 1204) (omega arith)

-- A channel that keeps what is published.
abbrev channel : Channel (List (String × Publishing))
channel = record {
  exchange_declare = λ _ _ _ s. (ok tt, s);
  queue_declare = λ _ _ _ s. (ok tt, s);
  queue_bind = λ _ _ _ s. (ok tt, s);
  publish = λ exchange _ msg s. (ok tt, (exchange, msg) ∷ s);
}

three_seconds : pos_part (pos 5000000000 -ℤ pos 2000000000) < half_64
unfolding ◌-ℤ◌
three_seconds = omega arith

publish_message_example :
    (msg : Publishing) × (publish json channel (pos 2000000000) (note 3 "scheduled") []
      ≡ channel.publish wait_exchange "" msg [])
    × (msg.body ≡ "3")
    × (msg.persistent ≡ true)
    × (ms : ℕ) × (parse_int msg.expiration ≡ ok (pos ms))
    × (ms * nanos_per_milli ≤ pos_part (pos 5000000000 -ℤ pos 2000000000))
    × (pos_part (pos 5000000000 -ℤ pos 2000000000) < ms * nanos_per_milli + nanos_per_milli)
publish_message_example =
    publish_message json channel (pos 2000000000) (note 3 "scheduled") [] "3" refl three_seconds

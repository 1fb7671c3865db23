-- ===== src/Rabbit/Queue.antt =====
-- `RabbitMQQueue` of storage/rabbitmq/queue.go as a `NotificationQueue`. What it logs is left out.
use delayed_notifier.Prelude.{String, true, ⊤, if◌then◌else◌}
use delayed_notifier.Prelude.Int.{pos, ltb_ℤ}
use delayed_notifier.Go.Errors.{wrap, map_err}
use delayed_notifier.Go.Action.{Action, lift, ◌>>=◌}
use delayed_notifier.Go.Clock.{Time, Duration, time_until, milliseconds}
use delayed_notifier.Go.Decimal.{format_int}
use delayed_notifier.Domain.Model.{Notification}
use delayed_notifier.Domain.Ports.{NotificationQueue}
use delayed_notifier.Domain.Json.{JsonCodec}
use delayed_notifier.Rabbit.Channel.{Publishing, Channel}
use delayed_notifier.Rabbit.Topology.{wait_exchange, retry_exchange}

-- `if delay < 0 { delay = 0 }`
abbrev pub clamp : Duration → Duration
clamp delay = if ltb_ℤ delay (pos 0) then pos 0 else delay

-- The delay of `Publish`, at the time `now`.
unfoldable pub publish_delay : Time → Time → Duration
publish_delay now scheduled_at = clamp (time_until now scheduled_at)

abbrev pub message : String → Duration → Publishing
message body delay = record {
  content_type = "application/json";
  body = body;
  persistent = true;
  expiration = format_int (milliseconds delay);
}

module _ {S : Type 0} (json : JsonCodec) (ch : Channel S) where
  unfoldable pub publish : Time → Notification → Action S ⊤
  publish now n = do
    body ← lift (map_err (wrap "failed to marshal notification") (json.marshal n))
    ch.publish wait_exchange "" (message body (publish_delay now n.scheduled_at))

  unfoldable pub publish_retry : Notification → Duration → Action S ⊤
  publish_retry n retry_delay = do
    body ← lift (map_err (wrap "failed to marshal notification for retry") (json.marshal n))
    ch.publish retry_exchange "" (message body retry_delay)

  abbrev pub rabbitmq_queue : NotificationQueue S
  rabbitmq_queue = record { publish = publish; publish_retry = publish_retry }

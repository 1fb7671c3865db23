-- ===== src/Rabbit/Retries.antt =====
-- `PublishRetry` of storage/rabbitmq/queue.go with the delays of internal/consumer/consumer.go.
use native.Mathlib.Nat.{pow-le-pow_right}
use delayed_notifier.Prelude.{ℕ, ◌*◌, ◌^◌, ◌≤◌, ◌≡◌, refl, arith, String, true, ap, ◌∙◌}
use delayed_notifier.Prelude.Int.{ℤ, pos}
use delayed_notifier.Go.Errors.{ok}
use delayed_notifier.Go.Action.{◌>>=◌}
use delayed_notifier.Go.Clock.{milliseconds}
use delayed_notifier.Go.Decimal.{format_int, parse_int}
use delayed_notifier.Go.Decimal.RoundTrip.{parse_int-format_int}
use delayed_notifier.Domain.Model.{Notification}
use delayed_notifier.Domain.Json.{JsonCodec}
use delayed_notifier.Rabbit.Channel.{Channel, Publishing}
use delayed_notifier.Rabbit.Topology.{retry_exchange}
use delayed_notifier.Rabbit.Queue.{message, publish_retry}
use delayed_notifier.Consumer.Backoff.{calculate_exponential_backoff}
use delayed_notifier.Consumer.Retry.{backoff_exact}

backoff_ms :
    (k : ℕ) → k ≤ 30 → milliseconds (calculate_exponential_backoff (pos k)) ≡ pos (5000 * 2 ^ k)
unfolding milliseconds
backoff_ms k h = ap milliseconds (backoff_exact k h) ∙ ground arith

-- The expiration reads back as 5000 * 2 ^ k milliseconds.
pub retry_expires_after :
    (body : String) (k : ℕ)
    → k ≤ 30
    → parse_int (message body (calculate_exponential_backoff (pos k))).expiration
      ≡ ok (pos (5000 * 2 ^ k))
retry_expires_after body k few =
    let small : 2 ^ k ≤ 2 ^ 30 = pow-le-pow_right (omega arith) few in
    ap (λ (d : ℤ). parse_int (format_int d)) (backoff_ms k few)
    ∙ parse_int-format_int (pos (5000 * 2 ^ k)) (omega (arith, small))

-- Where the notification marshals and k <= 30, `PublishRetry` with the backoff of attempt k hands
-- the result to the retry exchange with an empty routing key, as a persistent message whose
-- expiration reads back as 5000 * 2 ^ k milliseconds.
pub retry_message :
    {S : Type 0} (json : JsonCodec) (ch : Channel S) (n : Notification) (k : ℕ) (s : S)
    (body : String)
    → k ≤ 30
    → json.marshal n ≡ ok body
    → (msg : Publishing) × (publish_retry json ch n (calculate_exponential_backoff (pos k)) s
        ≡ ch.publish retry_exchange "" msg s)
      × (msg.body ≡ body)
      × (msg.persistent ≡ true)
      × (parse_int msg.expiration ≡ ok (pos (5000 * 2 ^ k)))
unfolding publish_retry
retry_message json ch n k s body few written = (
  message body (calculate_exponential_backoff (pos k)),
  rw (written, ◌>>=◌),
  refl,
  refl,
  retry_expires_after body k few,
)

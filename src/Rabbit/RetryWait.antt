-- ===== src/Rabbit/RetryWait.antt =====
-- How long the messages of `PublishRetry` stay in the retry queue of storage/rabbitmq/queue.go, with the
-- delays of internal/consumer/consumer.go.
use native.Mathlib.Nat.{pow-le-pow_right}
use delayed_notifier.Prelude.{ℕ, ◌+◌, ◌*◌, ◌^◌, ◌≤◌, ◌<◌, ◌≡◌, arith, String, ap, subst, ◌∙◌}
use delayed_notifier.Prelude.Int.{pos, ◌+ℤ◌, ◌≤ℤ◌}
use delayed_notifier.Go.Errors.{ok}
use delayed_notifier.Go.Clock.{Time, nanos_per_milli, nanos_per_second}
use delayed_notifier.Go.Decimal.{parse_int}
use delayed_notifier.Rabbit.Channel.{Publishing}
use delayed_notifier.Rabbit.Queue.{message}
use delayed_notifier.Rabbit.Retries.{retry_expires_after}
use delayed_notifier.Rabbit.Waiting.{History, Expires, add_add}
use delayed_notifier.Consumer.Backoff.{calculate_exponential_backoff}

-- The messages are those of `PublishRetry`, which the workers call with less than 5 attempts, in the
-- order in which they come in.
pub record Retried (h : History) : Type 0 where
  pub attempts : ℕ → ℕ
  pub body : ℕ → String
  pub message_law :
      (i : ℕ) → h.messages i ≡ message (body i) (calculate_exponential_backoff (pos (attempts i)))
  pub few : (i : ℕ) → attempts i < 5
  pub arrival : (i j : ℕ) → i ≤ j → h.enters i ≤ℤ h.enters j

-- A shorter time to live that began earlier.
sooner : (t u : Time) (a b : ℕ) → t ≤ℤ u → a ≤ b → t +ℤ pos a ≤ℤ u +ℤ pos b
unfolding ◌+ℤ◌
sooner t u a b h1 h2 = ground arith

module _ {lag : ℕ} (h : History) (queue : Expires lag h) (p : Retried h) where
  expiration : (i : ℕ) → parse_int (h.messages i).expiration ≡ ok (pos (5000 * 2 ^ p.attempts i))
  expiration i =
      ap (λ (m : Publishing). parse_int m.expiration) (p.message_law i)
      ∙ retry_expires_after (p.body i) (p.attempts i) (omega (arith, p.few i))

  at_most : (i : ℕ) → 5000 * 2 ^ p.attempts i * nanos_per_milli ≤ 80 * nanos_per_second
  at_most i =
      let below : p.attempts i ≤ 4 = omega (arith, p.few i) in
      let small : 2 ^ p.attempts i ≤ 2 ^ 4 = pow-le-pow_right (omega arith) below in
      omega (arith, small)

  -- Over a queue that expires its messages as documented, at its head only, a message that
  -- `PublishRetry` made for a notification with k < 5 attempts, with the backoff of k, leaves the
  -- retry queue not before 5 s * 2 ^ k after it entered, and within 80 seconds and the lag of the
  -- broker after it, whatever is in front of it.
  pub retried_within :
      (j : ℕ)
      → (h.enters j +ℤ pos (5 * 2 ^ p.attempts j * nanos_per_second) ≤ℤ h.leaves j)
        × (h.leaves j ≤ℤ h.enters j +ℤ pos (80 * nanos_per_second + lag))
  retried_within j = (
    subst (λ (d : ℕ). h.enters j +ℤ pos d ≤ℤ h.leaves j) (omega arith)
        (queue.not_before j (5000 * 2 ^ p.attempts j) (expiration j)),
    subst (λ (t : Time). h.leaves j ≤ℤ t) (add_add (h.enters j) (80 * nanos_per_second) lag)
        (queue.within j (h.enters j +ℤ pos (80 * nanos_per_second)) (λ i before. (
          5000 * 2 ^ p.attempts i,
          expiration i,
          sooner (h.enters i) (h.enters j) _ _ (p.arrival i j before) (at_most i),
        ))),
  )

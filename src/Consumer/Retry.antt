-- ===== src/Consumer/Retry.antt =====
-- `handleSendError`: how often a notification is retried, and after how long.
use native.Mathlib.Nat.{pow-le-pow_right}
use delayed_notifier.Prelude.{false, ℕ, suc, ◌*◌, ◌^◌, ◌≤◌, ◌<◌, ◌≡◌, arith, true}
use delayed_notifier.Prelude.Int.{ℤ, pos, ◌+ℤ◌, to_int64, leb_ℤ}
use delayed_notifier.Go.Clock.{nanos_per_second}
use delayed_notifier.Domain.Model.{Notification, status_failed}
use delayed_notifier.Domain.Ports.{NotificationRepository, NotificationQueue, Notifier}
use delayed_notifier.Domain.Json.{JsonCodec}
use delayed_notifier.Consumer.Backoff.{calculate_exponential_backoff}
use delayed_notifier.Consumer.Handler.{
  World, update_then_settle, publish_then_settle, handle_send_error,
}

-- Up to the thirtieth attempt the delay before a retry is 5 s * 2 ^ attempt in nanoseconds.
pub backoff_exact :
    (k : ℕ) → k ≤ 30 → calculate_exponential_backoff (pos k) ≡ pos (5 * 2 ^ k * nanos_per_second)
unfolding calculate_exponential_backoff
backoff_exact k h =
    let small : 2 ^ k ≤ 2 ^ 30 = pow-le-pow_right (omega arith) h in ground (arith, small)

next_attempt :
    (a : ℤ) (k : ℕ) → a ≡ pos k → k < 9223372036854775807 → to_int64 (a +ℤ pos 1) ≡ pos (suc k)
unfolding to_int64 ◌+ℤ◌
next_attempt a k e h = ground arith

module _ {R Q N : Type 0} (json : JsonCodec) (repo : NotificationRepository R)
    (queue : NotificationQueue Q) (notifier : Notifier N) where
  -- Below the limit the failed send is counted and the notification published again.
  pub send_error_retries :
      (n : Notification) (w : World R Q N) (k : ℕ)
      → n.attempts ≡ pos k
      → k < 4
      → handle_send_error json repo queue notifier n w
        ≡ publish_then_settle json repo queue notifier (record n { attempts = pos (suc k) }) w
  unfolding handle_send_error
  send_error_retries n w k counted few =
      let next = next_attempt n.attempts k counted (omega arith) in
      let low : leb_ℤ (pos 5) (pos (suc k)) ≡ false = ground arith in rw next (rw low)

  -- At the limit it is given up: no retry is published, and the status `failed` is stored.
  pub send_error_gives_up :
      (n : Notification) (w : World R Q N) (k : ℕ)
      → n.attempts ≡ pos k
      → 4 ≤ k
      → k < 9223372036854775807
      → handle_send_error json repo queue notifier n w
        ≡ update_then_settle json repo queue notifier
            (record n { attempts = pos (suc k); status = status_failed })
            w
  unfolding handle_send_error
  send_error_gives_up n w k counted many fits =
      let next = next_attempt n.attempts k counted fits in
      let high : leb_ℤ (pos 5) (pos (suc k)) ≡ true = ground arith in rw next (rw high)

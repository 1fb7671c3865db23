-- ===== src/Consumer/Retried.antt =====
-- What `handleMessage` does after a failed send that is not the last.
use delayed_notifier.Prelude.{◌≡◌, refl, ◌∷◌, String, true, ⊤, ℕ, ◌*◌, ◌^◌, ◌<◌, suc, arith}
use delayed_notifier.Prelude.Int.{pos}
use delayed_notifier.Go.Errors.{Error, Result, ok, err}
use delayed_notifier.Go.Clock.{Time, Duration, nanos_per_second}
use delayed_notifier.Domain.Model.{Notification, status_scheduled}
use delayed_notifier.Domain.Ports.{NotificationRepository, NotificationQueue, Notifier}
use delayed_notifier.Domain.Json.{JsonCodec}
use delayed_notifier.Consumer.Backoff.{calculate_exponential_backoff}
use delayed_notifier.Consumer.Handler.{
  acked, nacked, World, after_send, process, publish_then_settle, handle_message,
}
use delayed_notifier.Consumer.Paths.{latest_scheduled}
use delayed_notifier.Consumer.Retry.{send_error_retries, backoff_exact}

module _ {R Q N : Type 0} (json : JsonCodec) (repo : NotificationRepository R)
    (queue : NotificationQueue Q) (notifier : Notifier N) where
  -- The answer of the queue decides between acknowledging and requeueing.
  abbrev pub Retried : World R Q N → World R Q N → Result ⊤ × Q → Type 0
  Retried w w' (ok _, q) = w' ≡ record w { queue = q; settled = acked ∷ w.settled }
  Retried w w' (err _, q) = w' ≡ record w { queue = q; settled = nacked true ∷ w.settled }

  publish-Retried :
      (n : Notification) (w : World R Q N) (d : Duration) (x : Result ⊤ × Q)
      → calculate_exponential_backoff n.attempts ≡ d
      → queue.publish_retry n d w.queue ≡ x
      → Retried w (publish_then_settle json repo queue notifier n w) x
  publish-Retried n w d (ok u, q) delay e = ground arith
  publish-Retried n w d (err x, q) delay e = ground arith

  -- Where the send of a scheduled notification whose message counts k < 4 attempts fails, a worker
  -- publishes it with k + 1 attempts to be retried after 5 s * 2 ^ (k + 1), and acknowledges the
  -- message if that succeeds or requeues it if not; nothing is stored.
  pub retry_outcome :
      (now : Time) (body : String) (n m : Notification) (w : World R Q N) (s : R) (t : N)
      (e : Error) (k : ℕ)
      → json.unmarshal body ≡ ok n
      → repo.get_by_id n.id w.repo ≡ (ok m, s)
      → m.status ≡ status_scheduled
      → notifier.send n w.notifier ≡ (err e, t)
      → n.attempts ≡ pos k
      → k < 4
      → Retried
          (record w { repo = s; notifier = t })
          (handle_message json repo queue notifier now body w)
          (queue.publish_retry
            (record n { attempts = pos (suc k) })
            (pos (5 * 2 ^ suc k * nanos_per_second))
            w.queue)
  unfolding process
  retry_outcome now body n m w s t e k decoded good scheduled bad counted few =
      let w' : World R Q N = record w { repo = s; notifier = t } in
      rw
        (
          latest_scheduled json repo queue notifier now body n w decoded m s good scheduled,
          bad,
          after_send,
        )
        (rw (send_error_retries json repo queue notifier n w' k counted few) (
          publish-Retried (record n { attempts = pos (suc k) }) w'
            (pos (5 * 2 ^ suc k * nanos_per_second))
            (queue.publish_retry (record n { attempts = pos (suc k) })
              (pos (5 * 2 ^ suc k * nanos_per_second)) w.queue)
            (backoff_exact (suc k) (omega arith)) refl))

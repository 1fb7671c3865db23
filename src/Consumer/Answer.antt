-- ===== src/Consumer/Answer.antt =====
-- What `handleMessage` does with a scheduled notification, by the notifier's answer and the attempts.
use delayed_notifier.Prelude.{
  ◌≡◌, refl, String, ⊤, ℕ, suc, ◌*◌, ◌^◌, ◌<◌, ◌≤◌, some, inl, inr, arith, ltb, Bool-cases,
}
use delayed_notifier.Prelude.Int.{pos}
use delayed_notifier.Go.Errors.{Error, Result, ok, err}
use delayed_notifier.Go.Clock.{Time, nanos_per_second}
use delayed_notifier.Domain.Model.{Notification, status_scheduled, status_sent, status_failed}
use delayed_notifier.Domain.Ports.{NotificationRepository, NotificationQueue, Notifier}
use delayed_notifier.Domain.Json.{JsonCodec}
use delayed_notifier.Domain.Contract.{LawfulRepository}
use delayed_notifier.Consumer.Handler.{World, handle_message}
use delayed_notifier.Consumer.Recorded.{Outcome, sent-Outcome, failed-Outcome}
use delayed_notifier.Consumer.Retried.{Retried, retry_outcome}

module _ {R Q N : Type 0} (json : JsonCodec) (repo : NotificationRepository R)
    (queue : NotificationQueue Q) (notifier : Notifier N) (L : LawfulRepository repo) where
  -- The message `n` counts `k` attempts, and `s` is the store after the lookup.
  pub data SendOutcome (now : Time) (n : Notification) (w : World R Q N) (s : R) (k : ℕ)
      (w' : World R Q N) : Result ⊤ × N → Type 0 where
    sent :
        {t : N}
        → Outcome json repo queue notifier L
            (record n { status = status_sent; sent_at = some now })
            w
            w'
            (repo.update (record n { status = status_sent; sent_at = some now }) s)
        → SendOutcome now n w s k w' (ok tt, t)
    retried :
        {e : Error} {t : N}
        → k < 4
        → Retried json repo queue notifier
            (record w { repo = s; notifier = t })
            w'
            (queue.publish_retry
              (record n { attempts = pos (suc k) })
              (pos (5 * 2 ^ suc k * nanos_per_second))
              w.queue)
        → SendOutcome now n w s k w' (err e, t)
    failed :
        {e : Error} {t : N}
        → 4 ≤ k
        → Outcome json repo queue notifier L
            (record n { attempts = pos (suc k); status = status_failed })
            w
            w'
            (repo.update (record n { attempts = pos (suc k); status = status_failed }) s)
        → SendOutcome now n w s k w' (err e, t)

  -- Over a repository that keeps its contract, where a message counts k attempts, k < 2 ^ 63 - 1,
  -- and its notification is stored as scheduled: where the notifier sends it without an error, a
  -- worker stores the status `sent` and a sending time; where the send fails and k < 4, it
  -- publishes the message with k + 1 attempts to be retried after 5 s * 2 ^ (k + 1), and stores
  -- nothing; where the send fails and 4 <= k, it stores the status `failed` and k + 1 attempts, as
  -- an int16. What is stored keeps the content, and nothing is published then. Where the store
  -- takes the status or the queue the message, the message is acknowledged; where the store or the
  -- queue fails, nothing is stored and the message is requeued.
  pub send_outcome :
      (now : Time) (body : String) (n m : Notification) (w : World R Q N) (s : R) (k : ℕ)
      → json.unmarshal body ≡ ok n
      → L.Valid w.repo
      → repo.get_by_id n.id w.repo ≡ (ok m, s)
      → m.status ≡ status_scheduled
      → n.attempts ≡ pos k
      → k < 9223372036854775807
      → SendOutcome now n w s k
          (handle_message json repo queue notifier now body w)
          (notifier.send n w.notifier)
  send_outcome now body n m w s k decoded valid good scheduled counted fits =
      go (notifier.send n w.notifier) refl
    where
      go :
          (x : Result ⊤ × N)
          → notifier.send n w.notifier ≡ x
          → SendOutcome now n w s k (handle_message json repo queue notifier now body w) x
      go (ok u, t) answer = sent (
          sent-Outcome json repo queue notifier L now body n m w s t decoded valid good scheduled
            answer)
      go (err e, t) answer = elim (Bool-cases (ltb k 4)) [
        | inl few ↦ retried (ground arith) (
            retry_outcome json repo queue notifier now body n m w s t e k decoded good scheduled
              answer counted (ground arith))
        | inr many ↦ failed (ground arith) (
            failed-Outcome json repo queue notifier L now body n m w s t decoded valid good
              scheduled e k answer counted (ground arith) fits)
      ]

-- ===== src/Service/Race.antt =====
-- `CancelNotification` reads the status and deletes in two calls: what a worker does in between.
use delayed_notifier.Prelude.{◌≡◌, refl, some, ap, ◌∙◌, sym, str_same}
use mathlib.Core.Option.{some-injective}
use delayed_notifier.Go.Errors.{ok}
use delayed_notifier.Domain.Model.{
  Uuid, Notification, status_scheduled, status_sent, status_cancelled,
}
use delayed_notifier.Domain.Ports.{NotificationRepository, NotificationQueue}
use delayed_notifier.Domain.Contract.{LawfulRepository}
use delayed_notifier.Service.{cancel_if_scheduled}

module _ {R Q : Type 0} (repo : NotificationRepository R) (queue : NotificationQueue Q)
    (L : LawfulRepository repo) where
  -- Over a repository that keeps its contract, where the API has read a notification as scheduled
  -- and it was stored as sent since, the rest of the cancellation, if its query goes through,
  -- reports success and leaves the notification cancelled, with its sending time.
  pub cancel_overwrites_sent :
      (id : Uuid) (seen m : Notification) (s s' : R) (q : Q)
      → L.Valid s
      → seen.status ≡ status_scheduled
      → L.view s id ≡ some m
      → m.status ≡ status_sent
      → repo.delete id s ≡ (ok tt, s')
      → let (r, t) = cancel_if_scheduled repo queue id seen (s, q) in
        (r ≡ ok tt)
        × (k : Notification) × (L.view t.0 id ≡ some k)
        × (k.status ≡ status_cancelled)
        × (k.sent_at ≡ m.sent_at)
  cancel_overwrites_sent id seen m s s' q valid stale was sent done =
      let (_, c) = (rw done at (L.delete_law s id valid)) in
      rw (str_same seen.status status_scheduled stale, done)
        (
          refl,
          c.new,
          c.after,
          c.related.status,
          c.related.sent_at
              ∙ ap (λ (n : Notification). n.sent_at) (some-injective c.old m (sym c.before ∙ was)),
        )

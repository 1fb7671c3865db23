-- ===== src/Consumer/Paths.antt =====
-- `handleMessage` path by path: what happens to the message, the notifier, the queue and the store.
use delayed_notifier.Prelude.{◌≡◌, ◌≢◌, ◌∷◌, String, Bool-cases, inl, inr, str_eq, eq_iff}
use delayed_notifier.Go.Errors.{Error, ok, err}
use delayed_notifier.Go.Clock.{Time}
use delayed_notifier.Domain.Model.{Notification, status_scheduled}
use delayed_notifier.Domain.Ports.{NotificationRepository, NotificationQueue, Notifier}
use delayed_notifier.Domain.Json.{JsonCodec}
use delayed_notifier.Service.{get_notification_by_id}
use delayed_notifier.Consumer.Handler.{acked, World, process, handle_message}

module _ {R Q N : Type 0} (json : JsonCodec) (repo : NotificationRepository R)
    (queue : NotificationQueue Q) (notifier : Notifier N) (now : Time) (body : String)
    (n : Notification) (w : World R Q N) (decoded : json.unmarshal body ≡ ok n) where
  -- Whatever error the lookup of a notification ends with, the worker acknowledges the message,
  -- sends nothing, publishes nothing and stores nothing more.
  pub lookup_error_drops :
      (e : Error) (s : R)
      → repo.get_by_id n.id w.repo ≡ (err e, s)
      → handle_message json repo queue notifier now body w
        ≡ record w { repo = s; settled = acked ∷ w.settled }
  unfolding handle_message get_notification_by_id
  lookup_error_drops e s bad = rw decoded (rw bad)

  pub latest_not_scheduled :
      (m : Notification) (s : R)
      → repo.get_by_id n.id w.repo ≡ (ok m, s)
      → m.status ≢ status_scheduled
      → handle_message json repo queue notifier now body w
        ≡ record w { repo = s; settled = acked ∷ w.settled }
  unfolding handle_message get_notification_by_id
  latest_not_scheduled m s good final = elim (Bool-cases (str_eq m.status status_scheduled)) [
    | inl scheduled ↦ absurd (final ((eq_iff m.status status_scheduled).0 scheduled))
    | inr skipped ↦ rw decoded (rw good (rw skipped))
  ]

  pub latest_scheduled :
      (m : Notification) (s : R)
      → repo.get_by_id n.id w.repo ≡ (ok m, s)
      → m.status ≡ status_scheduled
      → handle_message json repo queue notifier now body w
        ≡ process json repo queue notifier now n (record w { repo = s })
  unfolding handle_message get_notification_by_id
  latest_scheduled m s good scheduled =
      rw decoded (rw good (rw ((eq_iff m.status status_scheduled).1 scheduled)))

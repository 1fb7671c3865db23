-- ===== src/Consumer/Ending.antt =====
-- How `handleMessage` ends: an update or a publication, then one settlement.
use delayed_notifier.Prelude.{◌≡◌, refl, arith, true, ◌∷◌, inl, inr, ◌⊎◌, ap}
use delayed_notifier.Go.Errors.{Result-cases}
use delayed_notifier.Domain.Model.{Notification}
use delayed_notifier.Domain.Ports.{NotificationRepository, NotificationQueue, Notifier}
use delayed_notifier.Domain.Json.{JsonCodec}
use delayed_notifier.Service.{update_notification}
use delayed_notifier.Consumer.Backoff.{calculate_exponential_backoff}
use delayed_notifier.Consumer.Handler.{
  Settlement, acked, nacked, World, update_then_settle, publish_then_settle,
}

-- A message that goes away, or comes back.
abbrev pub Concluded : Settlement → Type 0
Concluded a = (a ≡ acked) ⊎ (a ≡ nacked true)

module _ {R Q N : Type 0} (json : JsonCodec) (repo : NotificationRepository R)
    (queue : NotificationQueue Q) (notifier : Notifier N) where
  pub update_then_settle-eq :
      (n : Notification) (w : World R Q N)
      → (a : Settlement) × (update_then_settle json repo queue notifier n w
          ≡ record w { repo = (repo.update n w.repo).1; settled = a ∷ w.settled })
        × Concluded a
  unfolding update_notification
  update_then_settle-eq n w = elim (Result-cases (repo.update n w.repo).0) [
    | inl (e, f) ↦ (nacked true, ground arith, inr refl)
    | inr (u, f) ↦ (acked, ground arith, inl refl)
  ]

  pub publish_then_settle-eq :
      (n : Notification) (w : World R Q N)
      → (a : Settlement) × (publish_then_settle json repo queue notifier n w ≡ record w {
        queue = (queue.publish_retry n (calculate_exponential_backoff n.attempts) w.queue).1;
        settled = a ∷ w.settled;
      })
        × Concluded a
  publish_then_settle-eq n w =
      elim (Result-cases
        (queue.publish_retry n (calculate_exponential_backoff n.attempts) w.queue).0) [
          | inl (e, f) ↦ (nacked true, ground arith, inr refl)
          | inr (u, f) ↦ (acked, ground arith, inl refl)
        ]

  pub repo-update :
      (n : Notification) (w : World R Q N)
      → (update_then_settle json repo queue notifier n w).repo ≡ (repo.update n w.repo).1
  repo-update n w = ap (λ (v : World R Q N). v.repo) (update_then_settle-eq n w).1

  pub repo-publish :
      (n : Notification) (w : World R Q N)
      → (publish_then_settle json repo queue notifier n w).repo ≡ w.repo
  repo-publish n w = ap (λ (v : World R Q N). v.repo) (publish_then_settle-eq n w).1

  pub notifier-update :
      (n : Notification) (w : World R Q N)
      → (update_then_settle json repo queue notifier n w).notifier ≡ w.notifier
  notifier-update n w = ap (λ (v : World R Q N). v.notifier) (update_then_settle-eq n w).1

  pub notifier-publish :
      (n : Notification) (w : World R Q N)
      → (publish_then_settle json repo queue notifier n w).notifier ≡ w.notifier
  notifier-publish n w = ap (λ (v : World R Q N). v.notifier) (publish_then_settle-eq n w).1

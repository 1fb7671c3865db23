-- ===== src/Consumer/Settlement.antt =====
-- `handleMessage` tells the broker what to do with a message exactly once, on every path.
use delayed_notifier.Prelude.{
  ◌≡◌, refl, false, List, ◌∷◌, String, Bool-cases, inl, inr, ap, ◌∙◌, str_eq, ⊤,
}
use delayed_notifier.Prelude.Int.{pos, ◌+ℤ◌, leb_ℤ, to_int64}
use delayed_notifier.Go.Errors.{Error, Result, ok, err}
use delayed_notifier.Go.Clock.{Time}
use delayed_notifier.Domain.Model.{Notification, status_scheduled}
use delayed_notifier.Domain.Ports.{NotificationRepository, NotificationQueue, Notifier}
use delayed_notifier.Domain.Json.{JsonCodec}
use delayed_notifier.Service.{get_notification_by_id}
use delayed_notifier.Consumer.Ending.{Concluded, update_then_settle-eq, publish_then_settle-eq}
use delayed_notifier.Consumer.Handler.{
  Settlement, acked, nacked, World, service, max_retries, after_send, update_then_settle,
  publish_then_settle, handle_send_error, process, check_status, handle_decoded, handle_message,
}

module _ {R Q N : Type 0} (json : JsonCodec) (repo : NotificationRepository R)
    (queue : NotificationQueue Q) (notifier : Notifier N) where
  -- One settlement more, and not a rejection.
  abbrev Once : World R Q N → World R Q N → Type 0
  Once w w' = (a : Settlement) × (w'.settled ≡ a ∷ w.settled) × Concluded a

  update_Once :
      (n : Notification) (w : World R Q N)
      → Once w (update_then_settle json repo queue notifier n w)
  update_Once n w =
      let (a, e, settles) = update_then_settle-eq json repo queue notifier n w in
      (a, ap (λ (v : World R Q N). v.settled) e, settles)

  publish_Once :
      (n : Notification) (w : World R Q N)
      → Once w (publish_then_settle json repo queue notifier n w)
  publish_Once n w =
      let (a, e, settles) = publish_then_settle-eq json repo queue notifier n w in
      (a, ap (λ (v : World R Q N). v.settled) e, settles)

  send_error_Once :
      (n : Notification) (w : World R Q N) → Once w (handle_send_error json repo queue notifier n w)
  unfolding handle_send_error
  send_error_Once n w = elim (Bool-cases (leb_ℤ max_retries (to_int64 (n.attempts +ℤ pos 1)))) [
    | inl last ↦ rw last (update_Once _ w)
    | inr more ↦ rw more (publish_Once _ w)
  ]

  process-Once :
      (now : Time) (n : Notification) (w : World R Q N)
      → Once w (process json repo queue notifier now n w)
  unfolding process
  process-Once now n w = go (notifier.send n w.notifier)
    where
      go : (x : Result ⊤ × N) → Once w (after_send json repo queue notifier now n w x)
      go (err e, s) = send_error_Once n (record w { notifier = s })
      go (ok u, s) = update_Once _ (record w { notifier = s })

  check_Once :
      (now : Time) (n : Notification) (w : World R Q N) (x : Result Notification × World R Q N)
      → x.1.settled ≡ w.settled
      → Once w (check_status json repo queue notifier now n x)
  check_Once now n w (err e, w') same =
      (acked, ap (λ (l : List Settlement). acked ∷ l) same, inl refl)
  check_Once now n w (ok latest, w') same =
      elim (Bool-cases (str_eq latest.status status_scheduled)) [
        | inl scheduled ↦ rw scheduled (
            let (a, e, v) = process-Once now n w' in
            (a, e ∙ ap (λ (l : List Settlement). a ∷ l) same, v))
        | inr skipped ↦ rw skipped (acked, ap (λ (l : List Settlement). acked ∷ l) same, inl refl)
      ]

  decoded_Once :
      (now : Time) (n : Notification) (w : World R Q N)
      → Once w (handle_decoded json repo queue notifier now (ok n) w)
  decoded_Once now n w =
      check_Once now n w (service (get_notification_by_id repo queue n.id) w) refl

  -- A message that decodes is acknowledged or requeued, one of the two and once, on every path of
  -- `handleMessage`.
  pub settles_once :
      (now : Time) (body : String) (n : Notification) (w : World R Q N)
      → json.unmarshal body ≡ ok n
      → (a : Settlement) × ((handle_message json repo queue notifier now body w).settled
          ≡ a ∷ w.settled)
        × Concluded a
  unfolding handle_message
  settles_once now body n w decoded = rw decoded (decoded_Once now n w)

  -- A message that does not decode is rejected for good, and nothing else changes.
  pub rejects_garbage :
      (now : Time) (body : String) (e : Error) (w : World R Q N)
      → json.unmarshal body ≡ err e
      → handle_message json repo queue notifier now body w
        ≡ record w { settled = nacked false ∷ w.settled }
  unfolding handle_message
  rejects_garbage now body e w garbage = rw garbage

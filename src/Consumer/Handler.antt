-- ===== src/Consumer/Handler.antt =====
-- `handleMessage` and `handleSendError` of internal/consumer/consumer.go. The state is that of the
-- service, of the consumer's own queue, of the notifier, and what the broker was told of the message.
-- The service and the consumer publish through one queue. What the handlers log is left out.
use delayed_notifier.Prelude.{⊤, Bool, true, false, String, List, ◌∷◌, some, str_eq, if◌then◌else◌}
use delayed_notifier.Prelude.Int.{ℤ, pos, ◌+ℤ◌, leb_ℤ, to_int64}
use delayed_notifier.Go.Errors.{Result, ok, err}
use delayed_notifier.Go.Clock.{Time}
use delayed_notifier.Domain.Model.{Notification, status_scheduled, status_sent, status_failed}
use delayed_notifier.Domain.Ports.{NotificationRepository, NotificationQueue, Notifier}
use delayed_notifier.Domain.Json.{JsonCodec}
use delayed_notifier.Service.{get_notification_by_id, update_notification}
use delayed_notifier.Consumer.Backoff.{calculate_exponential_backoff}

-- The maximum number of send attempts.
abbrev pub max_retries : ℤ
max_retries = pos 5

-- `msg.Ack(false)` and `msg.Nack(false, requeue)`, whose errors the code drops.
pub data Settlement : Type 0 where
  acked : Settlement
  nacked : Bool → Settlement

pub record World (R Q N : Type 0) : Type 0 where
  pub repo : R
  pub queue : Q
  pub notifier : N
  pub settled : List Settlement

module _ {R Q N : Type 0} where
  abbrev pub settle : Settlement → World R Q N → World R Q N
  settle a w = record w { settled = a ∷ w.settled }

  -- A call of the service.
  abbrev pub service :
      {A : Type 0} → (R × Q → Result A × (R × Q)) → World R Q N → Result A × World R Q N
  service m w = let (r, rq) = m (w.repo, w.queue) in (r, record w { repo = rq.0; queue = rq.1 })

module _ {R Q N : Type 0} (json : JsonCodec) (repo : NotificationRepository R)
    (queue : NotificationQueue Q) (notifier : Notifier N) where
  -- `UpdateNotification`, then ack, or requeue where it failed.
  abbrev pub update_then_settle : Notification → World R Q N → World R Q N
  update_then_settle n w =
      let (r, w') = service (update_notification repo queue n) w in
      elim r [ ok _ ↦ settle acked w' | err _ ↦ settle (nacked true) w' ]

  abbrev pub publish_then_settle : Notification → World R Q N → World R Q N
  publish_then_settle n w =
      let (r, q) = queue.publish_retry n (calculate_exponential_backoff n.attempts) w.queue in
      let w' = record w { queue = q } in
      elim r [ ok _ ↦ settle acked w' | err _ ↦ settle (nacked true) w' ]

  unfoldable pub handle_send_error : Notification → World R Q N → World R Q N
  handle_send_error n w =
      let attempts : ℤ = to_int64 (n.attempts +ℤ pos 1) in
      if leb_ℤ max_retries attempts
      then update_then_settle (record n { attempts = attempts; status = status_failed }) w
      else publish_then_settle (record n { attempts = attempts }) w

  -- What follows the send.
  abbrev pub after_send : Time → Notification → World R Q N → Result ⊤ × N → World R Q N
  after_send now n w (err _, s) = handle_send_error n (record w { notifier = s })
  after_send now n w (ok _, s) =
      update_then_settle (record n { status = status_sent; sent_at = some now })
        (record w { notifier = s })

  -- The send; `now` is the time after it.
  unfoldable pub process : Time → Notification → World R Q N → World R Q N
  process now n w = after_send now n w (notifier.send n w.notifier)

  -- The status check.
  abbrev pub check_status : Time → Notification → Result Notification × World R Q N → World R Q N
  check_status now n (err _, w) = settle acked w
  check_status now n (ok latest, w) =
      if str_eq latest.status status_scheduled then process now n w else settle acked w

  abbrev pub handle_decoded : Time → Result Notification → World R Q N → World R Q N
  handle_decoded now (err _) w = settle (nacked false) w
  handle_decoded now (ok n) w =
      check_status now n (service (get_notification_by_id repo queue n.id) w)

  unfoldable pub handle_message : Time → String → World R Q N → World R Q N
  handle_message now body w = handle_decoded now (json.unmarshal body) w

-- ===== src/Service.antt =====
-- internal/service/notification_service.go over any repository and queue: `NotificationService`.
-- Its state is that of the repository and that of the queue. What the methods log is left out.
pub mod Cancel
pub mod Create
pub mod Created
pub mod Race
use Prim.Native.String.{◌++◌}
use delayed_notifier.Prelude.{String, Option, ⊤, str_eq, if◌then◌else◌}
use delayed_notifier.Go.Errors.{text, wrap, Result, ok, err}
use delayed_notifier.Go.Action.{Action, pure, fail, lift, on_error, ◌>>=◌, ◌>>◌}
use delayed_notifier.Go.Clock.{Time}
use delayed_notifier.Go.Decimal.{parse_int}
use delayed_notifier.Domain.Model.{
  Uuid, Channel, Notification, Fresh, channel_email, channel_telegram, status_scheduled,
  new_email_notification, new_telegram_notification,
}
use delayed_notifier.Domain.Ports.{NotificationRepository, NotificationQueue}

-- The arguments of `CreateNotification`.
pub record CreateInput : Type 0 where
  pub recipient : String
  pub channel : Channel
  pub subject : String
  pub message : String
  pub scheduled_at : Time
  pub author_id : Option String

-- The switch on the channel, up to the factory. `parse_address` is `mail.ParseAddress`, of which only
-- the error counts.
unfoldable pub build_notification : (String → Result ⊤) → Fresh → CreateInput → Result Notification
build_notification parse_address fresh i =
    if str_eq i.channel channel_email
    then elim (parse_address i.recipient) [
      | err e ↦ err (wrap "invalid email format" e)
      | ok _ ↦
          ok (
            new_email_notification fresh i.recipient i.subject i.message i.scheduled_at i.author_id)
    ]
    else if str_eq i.channel channel_telegram
    then elim (parse_int i.recipient) [
      | err e ↦ err (wrap "invalid telegram chat id" e)
      | ok chat_id ↦
          ok
            (new_telegram_notification fresh chat_id i.subject i.message i.scheduled_at i.author_id)
    ]
    else err (text ("unknown channel: " ++ i.channel))

-- The struct, without its logger.
pub record NotificationService (R Q : Type 0) : Type 0 where
  pub repo : NotificationRepository R
  pub queue : NotificationQueue Q

module _ {R Q : Type 0} where
  abbrev pub new_notification_service :
      NotificationRepository R → NotificationQueue Q → NotificationService R Q
  new_notification_service repo queue = record { repo = repo; queue = queue }

  abbrev pub on_repo : {A : Type 0} → Action R A → Action (R × Q) A
  on_repo m (r, q) = let (a, r') = m r in (a, (r', q))

  abbrev pub on_queue : {A : Type 0} → Action Q A → Action (R × Q) A
  on_queue m (r, q) = let (a, q') = m q in (a, (r, q'))

module _ {R Q : Type 0} (repo : NotificationRepository R) (queue : NotificationQueue Q) where
  -- `now` is what the clock shows when the delay is computed.
  unfoldable pub create_notification :
      (String → Result ⊤) → Fresh → Time → CreateInput → Action (R × Q) Notification
  create_notification parse_address fresh now i = do
    notification ← lift (build_notification parse_address fresh i)
    created ← on_repo (repo.save notification)
    on_error (wrap "failed to schedule notification") (on_queue (queue.publish now created))
    pure created

  unfoldable pub get_notification_by_id : Uuid → Action (R × Q) Notification
  get_notification_by_id id = on_repo (repo.get_by_id id)

  unfoldable pub update_notification : Notification → Action (R × Q) ⊤
  update_notification n = on_repo (repo.update n)

  -- The rest of `CancelNotification`, once the notification is read.
  abbrev pub cancel_if_scheduled : Uuid → Notification → Action (R × Q) ⊤
  cancel_if_scheduled id n =
      if str_eq n.status status_scheduled
      then on_repo (repo.delete id)
      else fail (text ("cannot cancel notification with status: " ++ n.status))

  unfoldable pub cancel_notification : Uuid → Action (R × Q) ⊤
  cancel_notification id = on_repo (repo.get_by_id id) >>= cancel_if_scheduled id

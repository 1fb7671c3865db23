-- ===== src/Http.antt =====
-- internal/delivery/http: the request handlers of handlers.go and the DTOs of dto.go.
pub mod Codes
pub mod Posted
pub mod Routes
pub mod Server
use delayed_notifier.Prelude.{ℕ, String, Option, ⊤, if◌then◌else◌}
use delayed_notifier.Go.Errors.{
  record_not_found, duplicate_record, errors_is, error_text, Result, ok, err,
}
use delayed_notifier.Go.Clock.{Time}
use delayed_notifier.Domain.Model.{Uuid, Notification, Fresh}
use delayed_notifier.Domain.Ports.{NotificationRepository, NotificationQueue}
use delayed_notifier.Service.{CreateInput}
use delayed_notifier.Service

pub record CreateNotificationRequest : Type 0 where
  pub recipient : String
  pub channel : String
  pub subject : String
  pub message : String
  pub scheduled_at : Time
  pub author_id : Option String

pub record NotificationResponse : Type 0 where
  pub id : Uuid
  pub status : String
  pub channel : String
  pub subject : String
  pub scheduled_at : Time
  pub created_at : Time

pub data Body : Type 0 where
  notification : NotificationResponse → Body
  -- `ErrorResponse`
  error : String → Body
  -- `gin.H{"status": status}`
  status : String → Body
  no_body : Body

pub record Reply : Type 0 where
  pub code : ℕ
  pub body : Body

-- `c.JSON(code, ErrorResponse{Error: message})`
abbrev pub error_reply : ℕ → String → Reply
error_reply code message = record { code = code; body = error message }

unfoldable pub to_notification_response : Notification → NotificationResponse
to_notification_response n = record {
  id = n.id;
  status = n.status;
  channel = n.channel;
  subject = n.subject;
  scheduled_at = n.scheduled_at;
  created_at = n.created_at;
}

abbrev pub create_input : CreateNotificationRequest → CreateInput
create_input req = record {
  recipient = req.recipient;
  channel = req.channel;
  subject = req.subject;
  message = req.message;
  scheduled_at = req.scheduled_at;
  author_id = req.author_id;
}

unfoldable pub create_reply : Result Notification → Reply
create_reply (ok n) = record { code = 201; body = notification (to_notification_response n) }
create_reply (err e) =
    if errors_is e duplicate_record
    then error_reply 409 (error_text e)
    else error_reply 500 "failed to create notification"

unfoldable pub get_reply : Result Notification → Reply
get_reply (ok n) = record { code = 200; body = notification (to_notification_response n) }
get_reply (err e) =
    if errors_is e record_not_found
    then error_reply 404 (error_text e)
    else error_reply 500 "failed to retrieve notification"

unfoldable pub cancel_reply : Result ⊤ → Reply
cancel_reply (ok _) = record { code = 204; body = no_body }
cancel_reply (err e) =
    if errors_is e record_not_found
    then error_reply 404 (error_text e)
    else error_reply 500 "failed to cancel notification"

module _ {R Q : Type 0} (repo : NotificationRepository R) (queue : NotificationQueue Q) where
  -- `bound` is what `c.ShouldBindJSON` makes of the request's body.
  unfoldable pub create_notification :
      (String → Result ⊤)
      → Fresh
      → Time
      → Result CreateNotificationRequest
      → R × Q
      → Reply × (R × Q)
  create_notification parse_address fresh now (err e) s = (error_reply 400 (error_text e), s)
  create_notification parse_address fresh now (ok req) s =
      let (r, s') =
        Service.create_notification repo queue parse_address fresh now (create_input req) s in
      (create_reply r, s')

  -- `parsed` is what `uuid.Parse` makes of the path's parameter.
  unfoldable pub get_notification_by_id : Result Uuid → R × Q → Reply × (R × Q)
  get_notification_by_id (err _) s = (error_reply 400 "invalid notification ID format", s)
  get_notification_by_id (ok id) s =
      let (r, s') = Service.get_notification_by_id repo queue id s in (get_reply r, s')

  unfoldable pub cancel_notification : Result Uuid → R × Q → Reply × (R × Q)
  cancel_notification (err _) s = (error_reply 400 "invalid notification ID format", s)
  cancel_notification (ok id) s =
      let (r, s') = Service.cancel_notification repo queue id s in (cancel_reply r, s')

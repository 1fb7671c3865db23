-- ===== src/Postgres/Mapping.antt =====
-- The mapper functions of storage/postgres/repository.go.
use Prim.Native.String.{◌++◌}
use delayed_notifier.Prelude.{String, Option, none, some, str_eq, if◌then◌else◌}
use delayed_notifier.Prelude.Int.{to_int16}
use delayed_notifier.Go.Errors.{text, Result, ok, err}
use delayed_notifier.Go.Clock.{Time}
use delayed_notifier.Domain.Model.{
  Notification, EmailDetails, TelegramDetails, channel_email, channel_telegram,
}
use delayed_notifier.Postgres.Rows.{
  Nullable, not_null, null_text, null_int8, null_time, Row, CreateNotificationParams,
  UpdateNotificationStatusParams,
}

abbrev text_of : Option String → Nullable String
text_of none = null_text
text_of (some s) = not_null s

-- The columns that do not depend on the channel.
abbrev common_params : Notification → CreateNotificationParams
common_params n = record {
  subject = n.subject;
  message = n.message;
  author_id = text_of n.author_id;
  email_to = null_text;
  telegram_chat_id = null_int8;
  channel = n.channel;
  status = n.status;
  attempts = to_int16 n.attempts;
  scheduled_at = not_null n.scheduled_at;
}

-- The case `model.ChannelEmail` of the switch.
abbrev email_params :
    CreateNotificationParams → Option EmailDetails → Result CreateNotificationParams
email_params p none = err (text "email recipient is required for email channel")
email_params p (some d) =
    if str_eq d.to ""
    then err (text "email recipient is required for email channel")
    else ok (record p { email_to = not_null d.to })

-- The case `model.ChannelTelegram`.
abbrev telegram_params :
    CreateNotificationParams → Option TelegramDetails → Result CreateNotificationParams
telegram_params p none = err (text "telegram recipient is required for telegram channel")
telegram_params p (some d) = ok (record p { telegram_chat_id = not_null d.chat_id })

unfoldable pub to_db_create_params : Notification → Result CreateNotificationParams
to_db_create_params n =
    if str_eq n.channel channel_email
    then email_params (common_params n) n.email
    else if str_eq n.channel channel_telegram
    then telegram_params (common_params n) n.telegram
    else err (text ("unsupported channel type: " ++ n.channel))

abbrev pub sent_column : Option Time → Nullable Time
sent_column none = null_time
sent_column (some t) = not_null t

-- It returns no error on any input.
unfoldable pub to_db_update_params : Notification → Result UpdateNotificationStatusParams
to_db_update_params n = ok (record {
  id = not_null n.id;
  status = n.status;
  attempts = to_int16 n.attempts;
  sent_at = sent_column n.sent_at;
})

abbrev pub nullable {ℓ} : {A : Type ℓ} → Nullable A → Option A
nullable c = if c.valid then some c.value else none

-- The switch on the channel at the end of `toDomainModel`, one field of the result each.
abbrev email_of : Row → Option EmailDetails
email_of r =
    if str_eq r.channel channel_email
    then (if r.email_to.valid then some (record { to = r.email_to.value }) else none)
    else none

abbrev telegram_of : Row → Option TelegramDetails
telegram_of r =
    if str_eq r.channel channel_email
    then none
    else if str_eq r.channel channel_telegram
    then (if r.telegram_chat_id.valid
        then some (record { chat_id = r.telegram_chat_id.value })
        else none)
    else none

-- The body of `toDomainModel` on a row that is there.
unfoldable pub domain_model : Row → Notification
domain_model r = record {
  id = r.id.value;
  subject = r.subject;
  message = r.message;
  channel = r.channel;
  status = r.status;
  attempts = r.attempts;
  author_id = nullable r.author_id;
  email = email_of r;
  telegram = telegram_of r;
  scheduled_at = r.scheduled_at.value;
  sent_at = nullable r.sent_at;
  created_at = r.created_at.value;
  updated_at = r.updated_at.value;
}

-- `none` is the nil pointer.
unfoldable pub to_domain_model : Option Row → Result Notification
to_domain_model none = err (text "cannot convert nil db notification")
to_domain_model (some r) = ok (domain_model r)

-- ===== src/Postgres/Rows.antt =====
-- storage/postgres/db/models.go, the parameter records of notification.sql.go, and the interface
-- `Querier` of querier.go. `ChannelType` and `NotificationStatus` are Go strings.
use delayed_notifier.Prelude.{String, Bool, true, false}
use delayed_notifier.Prelude.Int.{ℤ, pos}
use delayed_notifier.Go.Action.{Action}
use delayed_notifier.Go.Clock.{Time, zero_time}
use delayed_notifier.Domain.Model.{Uuid}

-- `pgtype.Text`, `pgtype.Int8`, `pgtype.Timestamptz`, `pgtype.UUID`: a value that counts if `valid`.
pub record Nullable {ℓ} (A : Type ℓ) : Type ℓ where
  pub value : A
  pub valid : Bool

abbrev pub not_null {ℓ} : {A : Type ℓ} → A → Nullable A
not_null a = record { value = a; valid = true }

-- The zero values of these types, which no caller reads.
abbrev pub null_text : Nullable String
null_text = record { value = ""; valid = false }

abbrev pub null_int8 : Nullable ℤ
null_int8 = record { value = pos 0; valid = false }

abbrev pub null_time : Nullable Time
null_time = record { value = zero_time; valid = false }

-- `db.Notification`
pub record Row : Type 0 where
  pub id : Nullable Uuid
  pub subject : String
  pub message : String
  pub author_id : Nullable String
  pub email_to : Nullable String
  pub telegram_chat_id : Nullable ℤ
  pub channel : String
  pub status : String
  pub attempts : ℤ
  pub scheduled_at : Nullable Time
  pub sent_at : Nullable Time
  pub created_at : Nullable Time
  pub updated_at : Nullable Time

pub record CreateNotificationParams : Type 0 where
  pub subject : String
  pub message : String
  pub author_id : Nullable String
  pub email_to : Nullable String
  pub telegram_chat_id : Nullable ℤ
  pub channel : String
  pub status : String
  pub attempts : ℤ
  pub scheduled_at : Nullable Time

pub record UpdateNotificationStatusParams : Type 0 where
  pub id : Nullable Uuid
  pub status : String
  pub attempts : ℤ
  pub sent_at : Nullable Time

pub record Querier (S : Type 0) : Type 0 where
  pub cancel_notification : Nullable Uuid → Action S Row
  pub create_notification : CreateNotificationParams → Action S Row
  pub get_notification_by_id : Nullable Uuid → Action S Row
  pub update_notification_status : UpdateNotificationStatusParams → Action S Row

-- ===== src/Domain/Model.antt =====
-- domain/model/notification.go. `Channel` and `Status` are Go strings: a request or a stored row may
-- hold any text in them. A pointer that may be nil is an `Option`.
use delayed_notifier.Prelude.{ℕ, String, Option, none, some, ◌≡◌, true, false, str_eq, eq_iff}
use delayed_notifier.Prelude.Int.{ℤ, pos}
use delayed_notifier.Go.Clock.{Time}

-- A `uuid.UUID`: 16 bytes, as a number.
abbrev pub Uuid : Type 0
Uuid = ℕ

abbrev pub Channel : Type 0
Channel = String

abbrev pub channel_email : Channel
channel_email = "email"

abbrev pub channel_telegram : Channel
channel_telegram = "telegram"

abbrev pub Status : Type 0
Status = String

abbrev pub status_scheduled : Status
status_scheduled = "scheduled"

abbrev pub status_sent : Status
status_sent = "sent"

abbrev pub status_failed : Status
status_failed = "failed"

abbrev pub status_cancelled : Status
status_cancelled = "cancelled"

pub record EmailDetails : Type 0 where
  pub to : String

pub record TelegramDetails : Type 0 where
  pub chat_id : ℤ

pub record Notification : Type 0 where
  pub id : Uuid
  pub subject : String
  pub message : String
  pub channel : Channel
  pub status : Status
  pub attempts : ℤ
  pub author_id : Option String
  pub email : Option EmailDetails
  pub telegram : Option TelegramDetails
  pub scheduled_at : Time
  pub sent_at : Option Time
  pub created_at : Time
  pub updated_at : Time

-- What a factory draws from its environment: `uuid.New()`, and `time.Now()` twice.
pub record Fresh : Type 0 where
  pub id : Uuid
  pub created : Time
  pub updated : Time

unfoldable pub new_email_notification :
    Fresh → String → String → String → Time → Option String → Notification
new_email_notification f recipient subject message scheduled_at author_id = record {
  id = f.id;
  subject = subject;
  message = message;
  channel = channel_email;
  status = status_scheduled;
  attempts = pos 0;
  author_id = author_id;
  email = some (record { to = recipient });
  telegram = none;
  scheduled_at = scheduled_at;
  sent_at = none;
  created_at = f.created;
  updated_at = f.updated;
}

unfoldable pub new_telegram_notification :
    Fresh → ℤ → String → String → Time → Option String → Notification
new_telegram_notification f chat_id subject message scheduled_at author_id = record {
  id = f.id;
  subject = subject;
  message = message;
  channel = channel_telegram;
  status = status_scheduled;
  attempts = pos 0;
  author_id = author_id;
  email = none;
  telegram = some (record { chat_id = chat_id });
  scheduled_at = scheduled_at;
  sent_at = none;
  created_at = f.created;
  updated_at = f.updated;
}

-- No channel is both.
pub telegram_of_email :
    (c : Channel) → str_eq c channel_email ≡ true → str_eq c channel_telegram ≡ false
telegram_of_email c h = rw ((eq_iff c channel_email).0 h)

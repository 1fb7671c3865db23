-- ===== src/Notifiers/Channels.antt =====
-- notifiers/{log,email,telegram}_notifier.go. A notifier's state is what has left the program: the log
-- line of the mock, the mail handed to the SMTP dialer, the message handed to the bot API.
use Prim.Native.String.{◌++◌}
use delayed_notifier.Prelude.{String, Option, none, some, ⊤, str_eq, if◌then◌else◌}
use delayed_notifier.Prelude.Int.{ℤ}
use delayed_notifier.Go.Errors.{Result, ok, err, text, wrap}
use delayed_notifier.Config.{EmailConfig, TelegramConfig}
use delayed_notifier.Go.Action.{Action, fail}
use delayed_notifier.Go.Decimal.{format_int}
use delayed_notifier.Domain.Model.{
  Uuid, Notification, EmailDetails, TelegramDetails, channel_email, channel_telegram,
}

-- The line that the mock logs.
pub record MockSend : Type 0 where
  pub notification_id : Uuid
  pub channel : String
  pub recipient : String
  pub subject : String

-- `gomail.Message` with the headers and the body that the program sets.
pub record Mail : Type 0 where
  pub from : String
  pub to : String
  pub subject : String
  pub body : String

-- `tgbotapi.NewMessage` with `ParseMode`.
pub record ChatMessage : Type 0 where
  pub chat_id : ℤ
  pub text : String
  pub parse_mode : String

-- `gomail.NewDialer`, by its arguments.
pub record Dialer : Type 0 where
  pub host : String
  pub port : ℤ
  pub username : String
  pub password : String

-- `*EmailNotifier`; the loggers of the notifiers are left out.
pub record EmailNotifier : Type 0 where
  pub dialer : Dialer
  pub from : String

-- `*TelegramNotifier`; the bot stands by the token that `tgbotapi.NewBotAPI` accepted.
pub record TelegramNotifier : Type 0 where
  pub bot : String

abbrev pub new_email_notifier : EmailConfig → EmailNotifier
new_email_notifier cfg = record {
  dialer = record {
    host = cfg.host;
    port = cfg.port;
    username = cfg.username;
    password = cfg.password;
  };
  from = cfg.from;
}

-- `new_bot_api` is `tgbotapi.NewBotAPI`, which asks the API whether the token is good.
abbrev pub new_telegram_notifier : (String → Result ⊤) → TelegramConfig → Result TelegramNotifier
new_telegram_notifier new_bot_api cfg = elim (new_bot_api cfg.bot_token) [
  | ok _ ↦ ok (record { bot = cfg.bot_token })
  | err e ↦ err (wrap "failed to create telegram bot api" e)
]

-- The services behind the notifiers: a log, an SMTP server, the Telegram API.
pub record Outside (S : Type 0) : Type 0 where
  pub log : MockSend → S → S
  pub dial_and_send : Dialer → Mail → Action S ⊤
  pub bot_send : String → ChatMessage → Action S ⊤

abbrev email_recipient : Option EmailDetails → String
email_recipient none = ""
email_recipient (some d) = d.to

abbrev telegram_recipient : Option TelegramDetails → String
telegram_recipient none = ""
telegram_recipient (some d) = "ChatID " ++ format_int d.chat_id

-- The switch of the mock.
abbrev recipient : Notification → String
recipient n =
    if str_eq n.channel channel_email
    then email_recipient n.email
    else if str_eq n.channel channel_telegram
    then telegram_recipient n.telegram
    else ""

abbrev pub mock_line : Notification → MockSend
mock_line n = record {
  notification_id = n.id;
  channel = n.channel;
  recipient = recipient n;
  subject = n.subject;
}

-- `fmt.Sprintf("*%s*\n\n%s", Subject, Message)`
abbrev pub full_message : Notification → String
full_message n = "*" ++ (n.subject ++ ("*\n\n" ++ n.message))

module _ {S : Type 0} (out : Outside S) where
  unfoldable pub log_send : Notification → Action S ⊤
  log_send n s = (Result.ok tt, out.log (mock_line n) s)

  abbrev mail_to : EmailNotifier → Notification → Option EmailDetails → Action S ⊤
  mail_to e n none = fail (text "invalid notification for email channel")
  mail_to e n (some d) =
      out.dial_and_send e.dialer
        (record { from = e.from; to = d.to; subject = n.subject; body = n.message })

  unfoldable pub email_send : EmailNotifier → Notification → Action S ⊤
  email_send e n =
      if str_eq n.channel channel_email
      then mail_to e n n.email
      else fail (text "invalid notification for email channel")

  abbrev chat_to : TelegramNotifier → Notification → Option TelegramDetails → Action S ⊤
  chat_to t n none = fail (text "invalid notification for telegram channel")
  chat_to t n (some d) =
      out.bot_send t.bot
        (record { chat_id = d.chat_id; text = full_message n; parse_mode = "Markdown" })

  unfoldable pub telegram_send : TelegramNotifier → Notification → Action S ⊤
  telegram_send t n =
      if str_eq n.channel channel_telegram
      then chat_to t n n.telegram
      else fail (text "invalid notification for telegram channel")

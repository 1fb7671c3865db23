-- ===== src/Notifiers/Dispatcher.antt =====
-- notifiers/dispathcer.go. A notifier that the dispatcher holds is named by its kind; the map from
-- channels to notifiers is an association list, in which a later entry replaces an earlier one.
use Prim.Native.String.{◌++◌}
use delayed_notifier.Prelude.{String, List, [], ◌∷◌, Option, none, some, ⊤, str_eq, if◌then◌else◌}
use delayed_notifier.Go.Errors.{text, wrap, Result, ok, err}
use delayed_notifier.Go.Action.{Action, fail}
use delayed_notifier.Domain.Model.{Channel, Notification, channel_email, channel_telegram}
use delayed_notifier.Domain.Ports.{Notifier}
use delayed_notifier.Config.{EmailConfig, TelegramConfig, NotifiersConfig}
use delayed_notifier.Notifiers.Channels.{
  EmailNotifier, TelegramNotifier, new_email_notifier, new_telegram_notifier, Outside, log_send,
  email_send, telegram_send,
}

-- The values that the map holds: `*LogNotifier`, `*EmailNotifier`, `*TelegramNotifier`.
pub data Kind : Type 0 where
  logging : Kind
  mailing : EmailNotifier → Kind
  chatting : TelegramNotifier → Kind

-- `notifiersMap[channel] = kind`
abbrev pub assign : Channel → Kind → List (Channel × Kind) → List (Channel × Kind)
assign c k [] = (c, k) ∷ []
assign c k ((d, l) ∷ m) = if str_eq d c then (c, k) ∷ m else (d, l) ∷ assign c k m

abbrev pub find : Channel → List (Channel × Kind) → Option Kind
find c [] = none
find c ((d, l) ∷ m) = if str_eq d c then some l else find c m

abbrev pub defaults : List (Channel × Kind)
defaults = assign channel_telegram logging (assign channel_email logging [])

abbrev with_email : EmailConfig → List (Channel × Kind) → List (Channel × Kind)
with_email cfg m =
    if str_eq cfg.host "" then m else assign channel_email (mailing (new_email_notifier cfg)) m

abbrev with_telegram :
    (String → Result ⊤) → TelegramConfig → List (Channel × Kind) → Result (List (Channel × Kind))
with_telegram new_bot_api cfg m =
    if str_eq cfg.bot_token "" then ok m else elim (new_telegram_notifier new_bot_api cfg) [
      | ok t ↦ ok (assign channel_telegram (chatting t) m)
      | err e ↦ err (wrap "failed to initialize telegram notifier" e)
    ]

unfoldable pub new_dispatcher :
    (String → Result ⊤) → NotifiersConfig → Result (List (Channel × Kind))
new_dispatcher new_bot_api cfg =
    if str_eq cfg.mode "production"
    then with_telegram new_bot_api cfg.telegram (with_email cfg.email defaults)
    else ok defaults

module _ {S : Type 0} (out : Outside S) where
  abbrev pub send_by : Kind → Notification → Action S ⊤
  send_by logging = log_send out
  send_by (mailing e) = email_send out e
  send_by (chatting t) = telegram_send out t

  abbrev send_found : Option Kind → Notification → Action S ⊤
  send_found (some k) n = send_by k n
  send_found none n = fail (text ("notifier for channel " ++ (n.channel ++ " not found")))

  -- `Dispatcher.Send`
  unfoldable pub send : List (Channel × Kind) → Notification → Action S ⊤
  send notifiers n = send_found (find n.channel notifiers) n

  abbrev pub dispatcher : List (Channel × Kind) → Notifier S
  dispatcher notifiers = record { send = send notifiers }

-- ===== src/Delivery.antt =====
-- From the request (internal/service) through the store (internal/storage) to what the notifiers
-- (internal/notifiers) hand out.
use Prim.Native.String.{◌++◌}
use mathlib.Core.Option.{some-injective}
use delayed_notifier.Prelude.{◌≡◌, ◌≢◌, List, inl, inr, String, ⊤, ap, ◌∙◌, sym}
use delayed_notifier.Prelude.Int.{ℤ}
use delayed_notifier.Go.Errors.{Result, ok}
use delayed_notifier.Go.Clock.{Time}
use delayed_notifier.Go.Decimal.{parse_int}
use delayed_notifier.Domain.Model.{
  Channel, Notification, Fresh, EmailDetails, TelegramDetails, channel_email, channel_telegram,
}
use delayed_notifier.Domain.Ports.{NotificationRepository, NotificationQueue}
use delayed_notifier.Domain.Contract.{LawfulRepository}
use delayed_notifier.Service.{CreateInput, create_notification}
use delayed_notifier.Service.Create.{by_email, by_telegram}
use delayed_notifier.Service.Created.{create_outcome}
use delayed_notifier.Config.{NotifiersConfig}
use delayed_notifier.Notifiers.Channels.{TelegramNotifier, new_email_notifier, Outside}
use delayed_notifier.Notifiers.Dispatcher.{Kind, mailing, chatting, new_dispatcher, send}
use delayed_notifier.Notifiers.Routing.{
  email_send_cases, telegram_send_cases, production_finds, send-find,
}

-- What a dispatcher with the configuration does with a notification that was created for a request.
pub data Delivers {S : Type 0} (out : Outside S) (cfg : NotifiersConfig) (m : List (Channel × Kind))
    (i : CreateInput) (c : Notification) (s : S) : Type 0 where
  mails :
      i.channel ≡ channel_email
      → send out m c s
        ≡ out.dial_and_send
            (new_email_notifier cfg.email).dialer
            (record {
              from = cfg.email.from;
              to = i.recipient;
              subject = i.subject;
              body = i.message;
            })
            s
      → Delivers out cfg m i c s
  chats :
      (chat_id : ℤ)
      → i.channel ≡ channel_telegram
      → parse_int i.recipient ≡ ok chat_id
      → send out m c s
        ≡ out.bot_send cfg.telegram.bot_token
            (record {
              chat_id = chat_id;
              text = "*" ++ (i.subject ++ ("*\n\n" ++ i.message));
              parse_mode = "Markdown";
            })
            s
      → Delivers out cfg m i c s

module _ {R Q S : Type 0} (repo : NotificationRepository R) (queue : NotificationQueue Q)
    (L : LawfulRepository repo) (parse_address : String → Result ⊤) (fresh : Fresh) (now : Time)
    (i : CreateInput) (out : Outside S) (new_bot_api : String → Result ⊤) (cfg : NotifiersConfig)
    (m : List (Channel × Kind)) where
  -- Over a repository that keeps its contract, and with a dispatcher that was built in production
  -- with an SMTP host and a bot token that the API accepts, a request that was accepted is stored
  -- so that the dispatcher hands its subject and its text to its recipient: by the configured SMTP
  -- server, from the configured address, to the mail address; or by the bot of the token to the
  -- chat whose number the recipient spells.
  pub created-Delivers :
      (r r' : R) (q q' : Q) (c : Notification) (s : S)
      → cfg.mode ≡ "production"
      → cfg.email.host ≢ ""
      → cfg.telegram.bot_token ≢ ""
      → new_bot_api cfg.telegram.bot_token ≡ ok tt
      → new_dispatcher new_bot_api cfg ≡ ok m
      → L.Valid r
      → create_notification repo queue parse_address fresh now i (r, q) ≡ (ok c, (r', q'))
      → Delivers out cfg m i c s
  created-Delivers r r' q q' c s prod host token good_token built_map valid made =
      let mailer = new_email_notifier cfg.email in
      let bot : TelegramNotifier = record { bot = cfg.telegram.bot_token } in
      let (mail, talk) = production_finds new_bot_api cfg m prod host token good_token built_map in
      let ((n, _, built, added), _) =
        (rw made at (create_outcome repo queue L parse_address fresh now i (r, q) valid)) in
      let subject = added.saved.subject ∙ built.subject in
      let text = added.saved.message ∙ built.message in
      elim built.addressed [
        | by_email is good to ↦ elim (email_send_cases out mailer c s) [
          | inl (d, has, sends) ↦ mails (sym built.channel ∙ is) (
              let to_recipient =
                ap (λ (e : EmailDetails). e.to)
                  (some-injective d (record { to = i.recipient })
                    (sym has ∙ added.saved.address ∙ to)) in
              let routed =
                send-find out m channel_email (mailing mailer) c s mail
                  (added.saved.channel ∙ is) in
              routed ∙ sends ∙ cc)
          | inr (hasnt, _) ↦ cc (added.saved.address)
        ]
        | by_telegram id is good to ↦ elim (telegram_send_cases out bot c s) [
          | inl (d, has, sends) ↦ chats id (sym built.channel ∙ is) good (
              let to_chat =
                ap (λ (e : TelegramDetails). e.chat_id)
                  (some-injective d (record { chat_id = id }) (sym has ∙ added.saved.chat ∙ to)) in
              let routed =
                send-find out m channel_telegram (chatting bot) c s talk
                  (added.saved.channel ∙ is) in
              routed ∙ sends ∙ cc)
          | inr (hasnt, _) ↦ cc (added.saved.chat)
        ]
      ]

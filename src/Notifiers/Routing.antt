-- ===== src/Notifiers/Routing.antt =====
-- Which notifier the dispatcher picks, and what leaves the program.
use delayed_notifier.Prelude.{
  str_ne, str_same, ◌≡◌, ◌≢◌, refl, ◌⊎◌, inl, inr, String, none, some, str_eq, arith, ⊤, Bool-cases,
  Option-cases, List,
}
use delayed_notifier.Go.Errors.{text, Result, ok, err}
use delayed_notifier.Domain.Model.{
  EmailDetails, TelegramDetails, Channel, Notification, channel_email, channel_telegram,
}
use delayed_notifier.Domain.Contract.{address, chat}
use delayed_notifier.Notifiers.Channels.{
  EmailNotifier, TelegramNotifier, new_email_notifier, Outside, mock_line, log_send, email_send,
  telegram_send, full_message,
}
use delayed_notifier.Config.{NotifiersConfig}
use delayed_notifier.Notifiers.Dispatcher.{
  Kind, mailing, chatting, find, new_dispatcher, send, send_by, defaults, assign,
}

-- In any mode but `production`, the dispatcher keeps the notifiers that it sets by default.
pub development_defaults :
    (new_bot_api : String → Result ⊤) (cfg : NotifiersConfig) (m : List (Channel × Kind))
    → cfg.mode ≢ "production"
    → new_dispatcher new_bot_api cfg ≡ ok m
    → m ≡ defaults
unfolding new_dispatcher
development_defaults api cfg m dev made = ground (arith, str_ne cfg.mode "production" dev)

-- In any mode but `production`, a notification with a known channel is written to the log only, and
-- its send succeeds.
pub development_logs :
    {S : Type 0} (out : Outside S) (new_bot_api : String → Result ⊤) (cfg : NotifiersConfig)
    (m : List (Channel × Kind)) (n : Notification) (s : S)
    → cfg.mode ≢ "production"
    → new_dispatcher new_bot_api cfg ≡ ok m
    → (n.channel ≡ channel_email) ⊎ (n.channel ≡ channel_telegram)
    → send out m n s ≡ (ok tt, out.log (mock_line n) s)
unfolding send log_send
development_logs out api cfg m n s dev made known =
    let same = development_defaults api cfg m dev made in
    elim known [ inl by_email ↦ rw (same, by_email) | inr by_chat ↦ rw (same, by_chat) ]

-- In production, with an SMTP host and a bot token that the API accepts, the dispatcher is built,
-- and holds the mail notifier of the configured server and address for `email` and the bot of the
-- token for `telegram`.
pub production_routes :
    (new_bot_api : String → Result ⊤) (cfg : NotifiersConfig)
    → cfg.mode ≡ "production"
    → cfg.email.host ≢ ""
    → cfg.telegram.bot_token ≢ ""
    → new_bot_api cfg.telegram.bot_token ≡ ok tt
    → (m : List (Channel × Kind)) × (new_dispatcher new_bot_api cfg ≡ ok m)
      × (find channel_email m ≡ some (mailing (new_email_notifier cfg.email)))
      × (find channel_telegram m ≡ some (chatting (record { bot = cfg.telegram.bot_token })))
unfolding new_dispatcher
production_routes api cfg prod host token good = (
  assign channel_telegram (chatting (record { bot = cfg.telegram.bot_token }))
      (assign channel_email (mailing (new_email_notifier cfg.email)) defaults),
  rw (str_same cfg.mode "production" prod, str_ne cfg.telegram.bot_token "" token, good)
      (rw (str_ne cfg.email.host "" host)),
  refl,
  refl,
)

-- The same, read off a dispatcher that was built.
pub production_finds :
    (new_bot_api : String → Result ⊤) (cfg : NotifiersConfig) (m : List (Channel × Kind))
    → cfg.mode ≡ "production"
    → cfg.email.host ≢ ""
    → cfg.telegram.bot_token ≢ ""
    → new_bot_api cfg.telegram.bot_token ≡ ok tt
    → new_dispatcher new_bot_api cfg ≡ ok m
    → (find channel_email m ≡ some (mailing (new_email_notifier cfg.email)))
      × (find channel_telegram m ≡ some (chatting (record { bot = cfg.telegram.bot_token })))
production_finds api cfg m prod host token good made =
    let (m', made', mail, talk) = production_routes api cfg prod host token good in (cc, cc)

-- A notification goes to the notifier of its channel.
pub send-find :
    {S : Type 0} (out : Outside S) (m : List (Channel × Kind)) (c : Channel) (k : Kind)
    (n : Notification) (s : S)
    → find c m ≡ some k
    → n.channel ≡ c
    → send out m n s ≡ send_by out k n s
unfolding send
send-find out m c k n s found mine = rw (mine, found)

-- The mail notifier hands exactly the stored recipient, subject and text to the SMTP dialer, and
-- refuses what is not an email notification with an address.
pub email_send_cases :
    {S : Type 0} (out : Outside S) (e : EmailNotifier) (n : Notification) (s : S)
    → ((d : EmailDetails) × (address n ≡ some d)
        × (email_send out e n s
            ≡ out.dial_and_send e.dialer
                (record { from = e.from; to = d.to; subject = n.subject; body = n.message })
                s))
      ⊎ ((address n ≡ none)
          × (email_send out e n s ≡ (err (text "invalid notification for email channel"), s)))
unfolding email_send
email_send_cases out e n s = elim (Bool-cases (str_eq n.channel channel_email)) [
  | inr other ↦ inr (rw other, rw other)
  | inl mine ↦ elim (Option-cases n.email) [
    | inl absent ↦ inr (rw (mine, absent), rw (mine, absent))
    | inr (d, present) ↦ inl (d, rw (mine, present), rw (mine, present))
  ]
]

pub telegram_send_cases :
    {S : Type 0} (out : Outside S) (t : TelegramNotifier) (n : Notification) (s : S)
    → ((d : TelegramDetails) × (chat n ≡ some d)
        × (telegram_send out t n s
            ≡ out.bot_send t.bot
                (record { chat_id = d.chat_id; text = full_message n; parse_mode = "Markdown" })
                s))
      ⊎ ((chat n ≡ none)
          × (telegram_send out t n s ≡ (err (text "invalid notification for telegram channel"), s)))
unfolding telegram_send
telegram_send_cases out t n s = elim (Bool-cases (str_eq n.channel channel_telegram)) [
  | inr other ↦ inr (rw other, rw other)
  | inl mine ↦ elim (Option-cases n.telegram) [
    | inl absent ↦ inr (rw (mine, absent), rw (mine, absent))
    | inr (d, present) ↦ inl (d, rw (mine, present), rw (mine, present))
  ]
]

-- ===== src/Service/Create.antt =====
-- `CreateNotification` of internal/service/notification_service.go.
use delayed_notifier.Prelude.{
  ◌≡◌, refl, String, Bool-cases, inl, inr, ⊤, sym, some, none, str_eq, arith, subst, eq_iff, ◌↔◌,
}
use delayed_notifier.Prelude.Int.{ℤ, pos}
use delayed_notifier.Go.Errors.{Error, wrap, Result, ok, err, Result-cases}
use delayed_notifier.Go.Action.{◌>>=◌}
use delayed_notifier.Go.Clock.{Time}
use delayed_notifier.Go.Decimal.{parse_int}
use delayed_notifier.Domain.Model.{
  Notification, Fresh, channel_email, channel_telegram, status_scheduled, new_email_notification,
  new_telegram_notification,
}
use delayed_notifier.Domain.Ports.{NotificationRepository, NotificationQueue}
use delayed_notifier.Domain.Contract.{address, chat}
use delayed_notifier.Service.{CreateInput, build_notification, create_notification}

-- The recipient is the one of the request, in the form that the channel wants.
pub data Addressed (parse_address : String → Result ⊤) (i : CreateInput) (n : Notification)
    : Type 0 where
  by_email :
      n.channel ≡ channel_email
      → parse_address i.recipient ≡ ok tt
      → address n ≡ some (record { to = i.recipient })
      → Addressed parse_address i n
  by_telegram :
      (chat_id : ℤ)
      → n.channel ≡ channel_telegram
      → parse_int i.recipient ≡ ok chat_id
      → chat n ≡ some (record { chat_id = chat_id })
      → Addressed parse_address i n

-- A new notification for the request.
pub record Built (parse_address : String → Result ⊤) (i : CreateInput) (n : Notification)
    : Type 0 where
  pub channel : n.channel ≡ i.channel
  pub subject : n.subject ≡ i.subject
  pub message : n.message ≡ i.message
  pub scheduled_at : n.scheduled_at ≡ i.scheduled_at
  pub author_id : n.author_id ≡ i.author_id
  pub status : n.status ≡ status_scheduled
  pub attempts : n.attempts ≡ pos 0
  pub unsent : n.sent_at ≡ none
  pub addressed : Addressed parse_address i n

-- The request is one that the service accepts.
pub data Acceptable (parse_address : String → Result ⊤) (i : CreateInput) : Type 0 where
  email : i.channel ≡ channel_email → parse_address i.recipient ≡ ok tt → Acceptable parse_address i
  telegram :
      (chat_id : ℤ)
      → i.channel ≡ channel_telegram
      → parse_int i.recipient ≡ ok chat_id
      → Acceptable parse_address i

module _ (parse_address : String → Result ⊤) (fresh : Fresh) (i : CreateInput) where
  build_email :
      i.channel ≡ channel_email
      → parse_address i.recipient ≡ ok tt
      → build_notification parse_address fresh i
        ≡ ok (
            new_email_notification fresh i.recipient i.subject i.message i.scheduled_at i.author_id)
  unfolding build_notification
  build_email c p = rw ((eq_iff i.channel channel_email).1 c, p)

  build_telegram :
      (chat_id : ℤ)
      → i.channel ≡ channel_telegram
      → parse_int i.recipient ≡ ok chat_id
      → build_notification parse_address fresh i
        ≡ ok
            (new_telegram_notification fresh chat_id i.subject i.message i.scheduled_at i.author_id)
  unfolding build_notification
  build_telegram chat_id c p = rw (c, p)

  build-Acceptable :
      (n : Notification)
      → build_notification parse_address fresh i ≡ ok n
      → Acceptable parse_address i
  unfolding build_notification
  build-Acceptable n built = elim (Bool-cases (str_eq i.channel channel_email)) [
    | inl is_email ↦ elim (Result-cases (parse_address i.recipient)) [
      | inr (u, good) ↦ email ((eq_iff i.channel channel_email).0 is_email) good
      | inl (e, bad) ↦ absurd (ground arith)
    ]
    | inr no_email ↦ elim (Bool-cases (str_eq i.channel channel_telegram)) [
      | inr no_chat ↦ absurd (ground arith)
      | inl is_chat ↦ elim (Result-cases (parse_int i.recipient)) [
        | inr (chat_id, good) ↦
            telegram chat_id ((eq_iff i.channel channel_telegram).0 is_chat) good
        | inl (e, bad) ↦ absurd (ground arith)
      ]
    ]
  ]

  email-Built :
      i.channel ≡ channel_email
      → parse_address i.recipient ≡ ok tt
      → Built parse_address i
          (new_email_notification fresh i.recipient i.subject i.message i.scheduled_at i.author_id)
  unfolding new_email_notification
  email-Built c p = record {
    channel = sym c;
    subject = refl;
    message = refl;
    scheduled_at = refl;
    author_id = refl;
    status = refl;
    attempts = refl;
    unsent = refl;
    addressed = by_email refl p refl;
  }

  telegram-Built :
      (chat_id : ℤ)
      → i.channel ≡ channel_telegram
      → parse_int i.recipient ≡ ok chat_id
      → Built parse_address i
          (new_telegram_notification fresh chat_id i.subject i.message i.scheduled_at i.author_id)
  unfolding new_telegram_notification
  telegram-Built chat_id c p = record {
    channel = sym c;
    subject = refl;
    message = refl;
    scheduled_at = refl;
    author_id = refl;
    status = refl;
    attempts = refl;
    unsent = refl;
    addressed = by_telegram chat_id refl p refl;
  }

  same_result :
      (n m : Notification)
      → build_notification parse_address fresh i ≡ ok n
      → build_notification parse_address fresh i ≡ ok m
      → Built parse_address i m
      → Built parse_address i n
  same_result n m p q b = let same : m ≡ n = cc in subst (Built parse_address i) same b

  -- What the service builds is a new notification for the request.
  pub build-Built :
      (n : Notification) → build_notification parse_address fresh i ≡ ok n → Built parse_address i n
  build-Built n built = elim (build-Acceptable n built) [
    | email c p ↦ same_result n _ built (build_email c p) (email-Built c p)
    | telegram chat_id c p ↦
        same_result n _ built (build_telegram chat_id c p) (telegram-Built chat_id c p)
  ]

  -- A request is accepted exactly if its channel is `email` and its recipient parses as an address,
  -- or its channel is `telegram` and its recipient parses as an int64.
  pub build-ok_iff :
      ((n : Notification) × (build_notification parse_address fresh i ≡ ok n))
      ↔ Acceptable parse_address i
  build-ok_iff = (
    λ p. build-Acceptable p.0 p.1,
    λ a. elim a [
      | email c p ↦ (_, build_email c p)
      | telegram chat_id c p ↦ (_, build_telegram chat_id c p)
    ],
  )

module _ {R Q : Type 0} (repo : NotificationRepository R) (queue : NotificationQueue Q)
    (parse_address : String → Result ⊤) (fresh : Fresh) (now : Time) (i : CreateInput) where
  pub create-eq_refused :
      (e : Error) (s : R × Q)
      → build_notification parse_address fresh i ≡ err e
      → create_notification repo queue parse_address fresh now i s ≡ (err e, s)
  unfolding create_notification
  create-eq_refused e s bad = rw (bad, ◌>>=◌)

  pub create-eq_unsaved :
      (n : Notification) (e : Error) (r r' : R) (q : Q)
      → build_notification parse_address fresh i ≡ ok n
      → repo.save n r ≡ (err e, r')
      → create_notification repo queue parse_address fresh now i (r, q) ≡ (err e, (r', q))
  unfolding create_notification
  create-eq_unsaved n e r r' q built bad = ground arith

  pub create-eq_unpublished :
      (n c : Notification) (e : Error) (r r' : R) (q q' : Q)
      → build_notification parse_address fresh i ≡ ok n
      → repo.save n r ≡ (ok c, r')
      → queue.publish now c q ≡ (err e, q')
      → create_notification repo queue parse_address fresh now i (r, q)
        ≡ (err (wrap "failed to schedule notification" e), (r', q'))
  unfolding create_notification
  create-eq_unpublished n c e r r' q q' built saved bad = ground arith

  pub create-eq_ok :
      (n c : Notification) (r r' : R) (q q' : Q)
      → build_notification parse_address fresh i ≡ ok n
      → repo.save n r ≡ (ok c, r')
      → queue.publish now c q ≡ (ok tt, q')
      → create_notification repo queue parse_address fresh now i (r, q) ≡ (ok c, (r', q'))
  unfolding create_notification
  create-eq_ok n c r r' q q' built saved published = ground arith

-- ===== src/Domain/Contract.antt =====
-- What domain/repository/notification_repo.go promises: the contract of a repository over an abstract
-- map from ids to notifications, and that of a cache, which may lose entries.
use delayed_notifier.Prelude.{
  Bool, true, refl, inl, inr, str_eq, if◌then◌else◌, false, ◌≡◌, ◌≢◌, ◌⊎◌, Option, none, some,
}
use delayed_notifier.Prelude.Int.{pos, to_int16}
use delayed_notifier.Go.Errors.{Error, record_not_found, errors_is, Result, ok, err}
use delayed_notifier.Go.Clock.{Duration, zero_time, Near}
use delayed_notifier.Domain.Model.{
  Uuid, Notification, EmailDetails, TelegramDetails, status_cancelled, channel_email,
  channel_telegram,
}
use delayed_notifier.Domain.Ports.{NotificationRepository, NotificationCache}

abbrev pub View : Type 0
View = Uuid → Option Notification

-- Two maps that agree but at one id.
abbrev pub SameBut : Uuid → View → View → Type 0
SameBut id v v' = (j : Uuid) → j ≢ id → v' j ≡ v j

abbrev pub Same : View → View → Type 0
Same v v' = (j : Uuid) → v' j ≡ v j

-- The fields that an update leaves alone.
abbrev pub core : Notification → Notification
core n = record n { status = ""; attempts = pos 0; sent_at = none; updated_at = zero_time }

-- The recipient that counts for the channel.
abbrev pub address : Notification → Option EmailDetails
address n = if str_eq n.channel channel_email then n.email else none

abbrev pub chat : Notification → Option TelegramDetails
chat n = if str_eq n.channel channel_telegram then n.telegram else none

abbrev pub has_sent_at : Notification → Bool
has_sent_at n = elim n.sent_at [ none ↦ false | some _ ↦ true ]

-- The notification `m` stored for a new `n`: its content, its recipient and its state.
pub record Saved (n m : Notification) : Type 0 where
  pub subject : m.subject ≡ n.subject
  pub message : m.message ≡ n.message
  pub channel : m.channel ≡ n.channel
  pub status : m.status ≡ n.status
  pub author_id : m.author_id ≡ n.author_id
  pub address : address m ≡ address n
  pub chat : chat m ≡ chat n
  pub attempts : m.attempts ≡ to_int16 n.attempts
  pub scheduled_at : Near n.scheduled_at m.scheduled_at
  pub unsent : m.sent_at ≡ none

-- `old` became `m` when it was updated by `n`.
pub record Updated (old n m : Notification) : Type 0 where
  pub kept : core m ≡ core old
  pub status : m.status ≡ n.status
  pub attempts : m.attempts ≡ to_int16 n.attempts
  pub sent : has_sent_at m ≡ has_sent_at n

-- `old` became `m` when it was cancelled.
pub record Cancelled (old m : Notification) : Type 0 where
  pub kept : core m ≡ core old
  pub status : m.status ≡ status_cancelled
  pub attempts : m.attempts ≡ old.attempts
  pub sent_at : m.sent_at ≡ old.sent_at

-- One id's entry after a change that succeeded.
pub record Changed (R : Notification → Notification → Type 0) (id : Uuid) (v v' : View)
    : Type 0 where
  pub old : Notification
  pub new : Notification
  pub before : v id ≡ some old
  pub after : v' id ≡ some new
  pub related : R old new
  pub others : SameBut id v v'

-- A call that failed changed nothing; where it says that the record is not found, there is none.
pub record Refused (id : Uuid) (v v' : View) (e : Error) : Type 0 where
  pub same : Same v v'
  pub missing : (errors_is e record_not_found ≡ false) ⊎ (v id ≡ none)

pub record Read (id : Uuid) (v v' : View) (n : Notification) : Type 0 where
  pub same : Same v v'
  pub found : v id ≡ some n

pub record Added (n : Notification) (v v' : View) (created : Notification) : Type 0 where
  pub fresh : v created.id ≡ none
  pub after : v' created.id ≡ some created
  pub saved : Saved n created
  pub others : SameBut created.id v v'

-- What a call has done, by how it ended.
abbrev pub Ensures :
    {S A : Type 0} → (A → S → Type 0) → (Error → S → Type 0) → Result A × S → Type 0
Ensures P F (ok a, s) = P a s
Ensures P F (err e, s) = F e s

pub Ensures-map :
    {S A : Type 0} {P P' : A → S → Type 0} {F F' : Error → S → Type 0} (x : Result A × S)
    → ((a : A) (s : S) → P a s → P' a s)
    → ((e : Error) (s : S) → F e s → F' e s)
    → Ensures P F x
    → Ensures P' F' x
Ensures-map (ok a, s) f g h = f a s h
Ensures-map (err e, s) f g h = g e s h

-- How a call ended, with what is then known.
pub Ensures-cases :
    {S A : Type 0} {P : A → S → Type 0} {F : Error → S → Type 0} (x : Result A × S)
    → Ensures P F x
    → ((a : A) × (s : S) × (x ≡ (ok a, s)) × P a s)
      ⊎ ((e : Error) × (s : S) × (x ≡ (err e, s)) × F e s)
Ensures-cases (ok a, s) h = inl (a, s, refl, h)
Ensures-cases (err e, s) h = inr (e, s, refl, h)

pub record LawfulRepository {S : Type 0} (repo : NotificationRepository S) : Type 1 where
  pub Valid : S → Type 0
  pub view : S → View
  pub view_id : (s : S) (id : Uuid) (n : Notification) → Valid s → view s id ≡ some n → n.id ≡ id
  pub save_law :
      (s : S) (n : Notification)
      → Valid s
      → Ensures
          (λ c s'. Valid s' × Added n (view s) (view s') c)
          (λ e s'. Valid s' × Same (view s) (view s'))
          (repo.save n s)
  pub get_law :
      (s : S) (id : Uuid)
      → Valid s
      → Ensures
          (λ n s'. Valid s' × Read id (view s) (view s') n)
          (λ e s'. Valid s' × Refused id (view s) (view s') e)
          (repo.get_by_id id s)
  pub update_law :
      (s : S) (n : Notification)
      → Valid s
      → Ensures
          (λ _ s'. Valid s' × Changed (λ old m. Updated old n m) n.id (view s) (view s'))
          (λ e s'. Valid s' × Refused n.id (view s) (view s') e)
          (repo.update n s)
  pub delete_law :
      (s : S) (id : Uuid)
      → Valid s
      → Ensures
          (λ _ s'. Valid s' × Changed Cancelled id (view s) (view s'))
          (λ e s'. Valid s' × Refused id (view s) (view s') e)
          (repo.delete id s)

-- No entry appears; entries may go, by expiry or eviction.
abbrev pub Within : View → View → Type 0
Within v v' = (j : Uuid) (n : Notification) → v' j ≡ some n → v j ≡ some n

-- The entry of `n` may be new.
abbrev pub WithinOr : Notification → View → View → Type 0
WithinOr n v v' =
    (j : Uuid) (m : Notification) → v' j ≡ some m → (v j ≡ some m) ⊎ ((j ≡ n.id) × (m ≡ n))

-- A cache holds nothing but what was set and not deleted since; any call of it may fail.
pub record LawfulCache {S : Type 0} (cache : NotificationCache S) : Type 0 where
  pub entry : S → View
  pub get_law :
      (s : S) (id : Uuid)
      → Ensures
          (λ n s'. Within (entry s) (entry s') × (entry s id ≡ some n))
          (λ _ s'. Within (entry s) (entry s'))
          (cache.get id s)
  pub set_law :
      (s : S) (n : Notification) (d : Duration)
      → Ensures
          (λ _ s'. WithinOr n (entry s) (entry s'))
          (λ _ s'. WithinOr n (entry s) (entry s'))
          (cache.set n d s)
  pub delete_law :
      (s : S) (id : Uuid)
      → Ensures
          (λ _ s'. Within (entry s) (entry s') × (entry s' id ≡ none))
          (λ _ s'. Within (entry s) (entry s'))
          (cache.delete id s)

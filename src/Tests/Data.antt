-- ===== src/Tests/Data.antt =====
-- The concrete services that the examples run on.
use delayed_notifier.Prelude.{
  ◌==◌, ◌≡◌, refl, String, Option, none, some, List, [], ◌∷◌, ⊤, str_eq, if◌then◌else◌, inl, inr,
  Bool-cases, arith,
}
use delayed_notifier.Prelude.Int.{pos, ◌+ℤ◌}
use delayed_notifier.Go.Clock.{Time, Near}
use delayed_notifier.Go.Errors.{text, foreign, sentinel, record_not_found, Result, ok, err}
use delayed_notifier.Go.Action.{Action}
use delayed_notifier.Domain.Model.{Uuid, Notification}
use delayed_notifier.Domain.Ports.{
  NotificationRepository, NotificationCache, NotificationQueue, Notifier,
}
use delayed_notifier.Domain.Json.{JsonCodec}
use delayed_notifier.Domain.Contract.{
  Ensures, Within, WithinOr, View, LawfulRepository, LawfulCache,
}
use delayed_notifier.Postgres.Rows.{not_null, null_text, null_int8, null_time, Row}
use delayed_notifier.Postgres.Mapping.{to_domain_model, domain_model}
use delayed_notifier.Postgres.Sql.{Database, queries, asked, get_notification_by_id}
use delayed_notifier.Postgres.Repository.{notification_repository, get_by_id}
use delayed_notifier.Postgres.Lawful.{lawful}
use delayed_notifier.Consumer.Handler.{World}

abbrev pub row : Uuid → String → Row
row id status = record {
  id = not_null id;
  subject = "subject";
  message = "text";
  author_id = null_text;
  email_to = not_null "a@b.org";
  telegram_chat_id = null_int8;
  channel = "email";
  status = status;
  attempts = pos 0;
  scheduled_at = not_null (pos 5000000000);
  sent_at = null_time;
  created_at = not_null (pos 1);
  updated_at = not_null (pos 1);
}

abbrev pub note : Uuid → String → Notification
note id status = record {
  id = id;
  subject = "subject";
  message = "text";
  channel = "email";
  status = status;
  attempts = pos 0;
  author_id = none;
  email = some (record { to = "a@b.org" });
  telegram = none;
  scheduled_at = pos 5000000000;
  sent_at = none;
  created_at = pos 1;
  updated_at = pos 1;
}

-- Notification 3 is scheduled and 4 is sent.
pub same-Near : (t : Time) → Near t t
unfolding ◌+ℤ◌
same-Near t = (ground arith, ground arith)

abbrev pub db : Database
db = record {
  rows = row 3 "scheduled" ∷ row 4 "sent" ∷ [];
  now = pos 2;
  random = λ k. k;
  drawn = 0;
  stored = λ t. t;
  stored_near = same-Near;
  failure = λ _. none;
  queries = 0;
}

abbrev pub repo : NotificationRepository Database
repo = notification_repository queries

abbrev pub law : LawfulRepository repo
law = lawful

pub get_3 : repo.get_by_id 3 db ≡ (ok (note 3 "scheduled"), asked db)
unfolding get_by_id get_notification_by_id to_domain_model domain_model
get_3 = refl

-- Two messages, "3" and "4".
abbrev pub json : JsonCodec
json = record {
  marshal = λ n. ok "3";
  unmarshal = λ s.
      if str_eq s "3"
      then ok (note 3 "scheduled")
      else if str_eq s "4"
      then ok (note 4 "scheduled")
      else err (text "unexpected end of JSON input");
}

abbrev pub queue : NotificationQueue (List Notification)
queue = record { publish = λ _ n q. (ok tt, n ∷ q); publish_retry = λ n _ q. (ok tt, n ∷ q) }

abbrev pub queue_down : NotificationQueue (List Notification)
queue_down = record {
  publish = λ _ _ q. (err (foreign "closed"), q);
  publish_retry = λ _ _ q. (err (foreign "closed"), q);
}

abbrev pub notifier : Notifier (List Notification)
notifier = record { send = λ n s. (ok tt, n ∷ s) }

abbrev pub notifier_down : Notifier (List Notification)
notifier_down = record { send = λ n s. (err (foreign "timeout"), s) }

abbrev pub world : World Database (List Notification) (List Notification)
world = record { repo = db; queue = []; notifier = []; settled = [] }

-- Every address is good.
abbrev pub parse_address : String → Result ⊤
parse_address _ = ok tt

-- A cache of one entry.
abbrev pub held : Option Notification → View
held none j = none
held (some n) j = if n.id == j then some n else none

abbrev pub answer : Option Notification → Result Notification
answer none = err (sentinel record_not_found)
answer (some n) = ok n

abbrev pub slot_get : Uuid → Action (Option Notification) Notification
slot_get id c = (answer (held c id), c)

abbrev pub slot_delete : Uuid → Action (Option Notification) ⊤
slot_delete id none = (ok tt, none)
slot_delete id (some n) = (ok tt, if n.id == id then none else some n)

abbrev pub slot : NotificationCache (Option Notification)
slot = record { get = slot_get; set = λ n _ _. (ok tt, some n); delete = slot_delete }

answer_law :
    (s : Option Notification) (id : Uuid) (o : Option Notification)
    → held s id ≡ o
    → Ensures
        (λ n s'. Within (held s) (held s') × (held s id ≡ some n))
        (λ _ s'. Within (held s) (held s'))
        (answer o, s)
answer_law s id none e = λ j n h. h
answer_law s id (some n) e = ((λ j n h. h), e)

pub slot_get_law :
    (s : Option Notification) (id : Uuid)
    → Ensures
        (λ n s'. Within (held s) (held s') × (held s id ≡ some n))
        (λ _ s'. Within (held s) (held s'))
        (slot_get id s)
slot_get_law s id = answer_law s id (held s id) refl

pub slot_set_law :
    (s : Option Notification) (n : Notification) → WithinOr n (held s) (held (some n))
slot_set_law s n j m h = elim (Bool-cases (n.id == j)) [
  | inl here ↦ inr (ground arith, cc)
  | inr other ↦ absurd (ground arith)
]

pub slot_delete_law :
    (s : Option Notification) (id : Uuid)
    → Ensures
        (λ _ s'. Within (held s) (held s') × (held s' id ≡ none))
        (λ _ s'. Within (held s) (held s'))
        (slot_delete id s)
slot_delete_law none id = ((λ j n h. h), refl)
slot_delete_law (some n) id = elim (Bool-cases (n.id == id)) [
  | inl here ↦ rw here ((λ j m h. cc), refl)
  | inr other ↦ rw other ((λ j m h. h), rw other refl)
]

abbrev pub slot_lawful : LawfulCache slot
slot_lawful = record {
  entry = held;
  get_law = slot_get_law;
  set_law = λ s n _. slot_set_law s n;
  delete_law = slot_delete_law;
}

-- A cache that cannot be reached to delete.
abbrev pub stuck : NotificationCache (Option Notification)
stuck = record {
  get = slot_get;
  set = λ n _ _. (ok tt, some n);
  delete = λ _ c. (err (foreign "timeout"), c);
}

-- ===== src/Postgres/Sql.antt =====
-- The SQL statements of storage/postgres/db/notification.sql.go over the table of
-- migrations/00001_initial_schema.sql: its column types, defaults, primary key, CHECK constraint and
-- the trigger that sets `updated_at`. Each statement is one step on the table.
use delayed_notifier.Prelude.{
  ℕ, suc, String, Bool, true, false, ◌&&◌, ◌||◌, not, Option, none, some, List, [], ◌∷◌, ◌==◌,
  str_eq, if◌then◌else◌,
}
use delayed_notifier.Go.Errors.{Error, sentinel, pg_error, foreign, no_rows, Result, ok, err}
use delayed_notifier.Go.Action.{Action}
use delayed_notifier.Go.Clock.{Time, Near}
use delayed_notifier.Domain.Model.{Uuid}
use delayed_notifier.Postgres.Rows.{
  Nullable, not_null, null_time, Row, CreateNotificationParams, UpdateNotificationStatusParams,
  Querier,
}

-- A failure that is not the statement's own: an error of the client (a lost connection, a cancelled
-- context), or one that the server raises (a missing partition), with its code.
pub data Failure : Type 0 where
  client server : String → Failure

abbrev pub failure_error : Failure → Error
failure_error (client s) = foreign s
failure_error (server code) = pg_error code

-- The table with what the server adds: `NOW()`, the values of `gen_random_uuid()`, the rounding of a
-- timestamp to the column's microseconds, and the failures, which leave the table as it was.
pub record Database : Type 0 where
  pub rows : List Row
  pub now : Time
  pub random : ℕ → Uuid
  pub drawn : ℕ
  pub stored : Time → Time
  pub stored_near : (t : Time) → Near t (stored t)
  pub failure : ℕ → Option Failure
  pub queries : ℕ

-- `=` on a column and a parameter: not true where one of them is NULL.
abbrev pub same_id : Nullable Uuid → Nullable Uuid → Bool
same_id a b = a.valid && b.valid && a.value == b.value

-- `WHERE id = $1`
abbrev pub find_row : Nullable Uuid → List Row → Option Row
find_row id [] = none
find_row id (r ∷ rs) = if same_id r.id id then some r else find_row id rs

abbrev pub update_rows : Nullable Uuid → (Row → Row) → List Row → List Row
update_rows id f [] = []
update_rows id f (r ∷ rs) = if same_id r.id id then f r ∷ rs else r ∷ update_rows id f rs

abbrev pub stored_time : Database → Nullable Time → Nullable Time
stored_time db t = if t.valid then not_null (db.stored t.value) else null_time

-- The labels of `channel_type` and `notification_status`.
abbrev pub is_channel_type : String → Bool
is_channel_type c = str_eq c "email" || str_eq c "telegram"

abbrev pub is_notification_status : String → Bool
is_notification_status s =
    str_eq s "scheduled" || str_eq s "sent" || str_eq s "failed" || str_eq s "cancelled"

-- `chk_recipient_channel`
abbrev pub chk_recipient_channel : String → Bool → Bool → Bool
chk_recipient_channel channel has_email has_chat =
    (str_eq channel "email" && has_email && not has_chat)
    || (str_eq channel "telegram" && has_chat && not has_email)

abbrev pub inserted : CreateNotificationParams → Database → Row
inserted p db = record {
  id = not_null (db.random db.drawn);
  subject = p.subject;
  message = p.message;
  author_id = p.author_id;
  email_to = p.email_to;
  telegram_chat_id = p.telegram_chat_id;
  channel = p.channel;
  status = p.status;
  attempts = p.attempts;
  scheduled_at = stored_time db p.scheduled_at;
  sent_at = null_time;
  created_at = not_null db.now;
  updated_at = not_null db.now;
}

-- The trigger `set_timestamp`, before every update.
abbrev pub trigger_set_timestamp : Database → Row → Row
trigger_set_timestamp db r = record r { updated_at = not_null db.now }

-- `RETURNING`, for the row of an UPDATE.
abbrev pub returning : Nullable Uuid → (Row → Row) → Database → Result Row × Database
returning id f db = elim (find_row id db.rows) [
  | none ↦ (err (sentinel no_rows), db)
  | some r ↦ (ok (f r), record db { rows = update_rows id f db.rows })
]

abbrev pub is_some_row : Option Row → Bool
is_some_row none = false
is_some_row (some _) = true

abbrev pub insert_row : CreateNotificationParams → Database → Result Row × Database
insert_row p db =
    let used = record db { drawn = suc db.drawn } in
    if not (is_channel_type p.channel && is_notification_status p.status)
    then (err (pg_error "22P02"), db)
    else if not (chk_recipient_channel p.channel p.email_to.valid p.telegram_chat_id.valid)
    then (err (pg_error "23514"), used)
    else if is_some_row (find_row (not_null (db.random db.drawn)) db.rows)
    then (err (pg_error "23505"), used)
    else (ok (inserted p db), record used { rows = inserted p db ∷ db.rows })

abbrev pub update_status : UpdateNotificationStatusParams → Database → Row → Row
update_status p db r =
    trigger_set_timestamp db
      (record r { status = p.status; attempts = p.attempts; sent_at = stored_time db p.sent_at })

abbrev pub update_row : UpdateNotificationStatusParams → Database → Result Row × Database
update_row p db =
    if is_notification_status p.status
    then returning p.id (update_status p db) db
    else (err (pg_error "22P02"), db)

abbrev pub cancel_row : Nullable Uuid → Database → Result Row × Database
cancel_row id db =
    returning id (λ r. trigger_set_timestamp db (record r { status = "cancelled" })) db

abbrev pub select_row : Nullable Uuid → Database → Result Row × Database
select_row id db = elim (find_row id db.rows) [
  | none ↦ (err (sentinel no_rows), db)
  | some r ↦ (ok r, db)
]

-- A statement was sent.
abbrev pub asked : Database → Database
asked db = record db { queries = suc db.queries }

-- `QueryRow(...).Scan(...)`: the statement runs, unless the server cannot be reached.
abbrev pub query_row : (Database → Result Row × Database) → Action Database Row
query_row statement db = elim (db.failure db.queries) [
  | some e ↦ (err (failure_error e), asked db)
  | none ↦ statement (asked db)
]

unfoldable pub create_notification : CreateNotificationParams → Action Database Row
create_notification p = query_row (insert_row p)

unfoldable pub get_notification_by_id : Nullable Uuid → Action Database Row
get_notification_by_id id = query_row (select_row id)

unfoldable pub update_notification_status : UpdateNotificationStatusParams → Action Database Row
update_notification_status p = query_row (update_row p)

unfoldable pub cancel_notification : Nullable Uuid → Action Database Row
cancel_notification id = query_row (cancel_row id)

abbrev pub queries : Querier Database
queries = record {
  cancel_notification = cancel_notification;
  create_notification = create_notification;
  get_notification_by_id = get_notification_by_id;
  update_notification_status = update_notification_status;
}

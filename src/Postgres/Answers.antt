-- ===== src/Postgres/Answers.antt =====
-- What the methods of the repository return and leave behind, by the server's answer.
use delayed_notifier.Prelude.{false, ◌≡◌, refl, none, some, arith, true, String, suc}
use delayed_notifier.Go.Errors.{sentinel, wrap, ok, err, errors_is, record_not_found, pg_error}
use delayed_notifier.Domain.Model.{Uuid, Notification}
use delayed_notifier.Postgres.Rows.{not_null, Row, UpdateNotificationStatusParams}
use delayed_notifier.Postgres.Mapping.{
  domain_model, to_domain_model, to_db_update_params, sent_column,
}
use delayed_notifier.Prelude.Int.{to_int16}
use delayed_notifier.Postgres.Sql.{
  Database, find_row, update_rows, queries, get_notification_by_id, update_notification_status,
  cancel_notification, asked, Failure, failure_error, client, server, update_status,
  trigger_set_timestamp, is_notification_status,
}
use delayed_notifier.Postgres.Repository.{get_by_id, update, delete}

abbrev pub get_what : String
get_what = "postgres: GetNotificationByID failed"

abbrev pub update_what : String
update_what = "postgres: UpdateNotificationStatus failed"

abbrev pub cancel_what : String
cancel_what = "postgres: CancelNotification failed"

-- What `GetByID` returns, by the server's answer.
pub get-eq_found :
    (db : Database) (id : Uuid) (r : Row)
    → db.failure db.queries ≡ none
    → find_row (not_null id) db.rows ≡ some r
    → get_by_id queries id db ≡ (ok (domain_model r), asked db)
unfolding get_by_id get_notification_by_id to_domain_model
get-eq_found db id r up h = ground arith

pub get-eq_missing :
    (db : Database) (id : Uuid)
    → db.failure db.queries ≡ none
    → find_row (not_null id) db.rows ≡ none
    → get_by_id queries id db ≡ (err (sentinel record_not_found), asked db)
unfolding get_by_id get_notification_by_id to_domain_model
get-eq_missing db id up h = ground arith

pub get-eq_failed :
    (db : Database) (id : Uuid) (e : Failure)
    → db.failure db.queries ≡ some e
    → get_by_id queries id db ≡ (err (wrap get_what (failure_error e)), asked db)
unfolding get_by_id get_notification_by_id to_domain_model
get-eq_failed db id (client s) down = ground arith
get-eq_failed db id (server s) down = ground arith

pub not_missing :
    (s : String) (f : Failure) → errors_is (wrap s (failure_error f)) record_not_found ≡ false
not_missing s (client _) = refl
not_missing s (server _) = refl

-- The parameters that `toDBUpdateParams` makes.
abbrev pub update_params : Notification → UpdateNotificationStatusParams
update_params n = record {
  id = not_null n.id;
  status = n.status;
  attempts = to_int16 n.attempts;
  sent_at = sent_column n.sent_at;
}

-- The table after the row of `id` was changed by `f`.
abbrev pub after_update : Uuid → (Row → Row) → Database → Database
after_update id f db = record db {
  queries = suc db.queries;
  rows = update_rows (not_null id) f db.rows;
}

pub update-eq_found :
    (db : Database) (n : Notification) (r : Row)
    → db.failure db.queries ≡ none
    → is_notification_status n.status ≡ true
    → find_row (not_null n.id) db.rows ≡ some r
    → update queries n db
      ≡ (ok tt, after_update n.id (update_status (update_params n) (asked db)) db)
unfolding update update_notification_status to_db_update_params
update-eq_found db n r up known h = ground arith

pub update-eq_missing :
    (db : Database) (n : Notification)
    → db.failure db.queries ≡ none
    → is_notification_status n.status ≡ true
    → find_row (not_null n.id) db.rows ≡ none
    → update queries n db ≡ (err (sentinel record_not_found), asked db)
unfolding update update_notification_status to_db_update_params
update-eq_missing db n up known h = ground arith

-- A status that the column's type does not know.
pub update-eq_unknown :
    (db : Database) (n : Notification)
    → db.failure db.queries ≡ none
    → is_notification_status n.status ≡ false
    → update queries n db ≡ (err (wrap update_what (pg_error "22P02")), asked db)
unfolding update update_notification_status to_db_update_params
update-eq_unknown db n up unknown = ground arith

pub update-eq_failed :
    (db : Database) (n : Notification) (e : Failure)
    → db.failure db.queries ≡ some e
    → update queries n db ≡ (err (wrap update_what (failure_error e)), asked db)
unfolding update update_notification_status to_db_update_params
update-eq_failed db n (client s) down = ground arith
update-eq_failed db n (server s) down = ground arith

abbrev pub cancelled : Database → Row → Row
cancelled db r = trigger_set_timestamp db (record r { status = "cancelled" })

pub delete-eq_found :
    (db : Database) (id : Uuid) (r : Row)
    → db.failure db.queries ≡ none
    → find_row (not_null id) db.rows ≡ some r
    → delete queries id db ≡ (ok tt, after_update id (cancelled (asked db)) db)
unfolding delete cancel_notification
delete-eq_found db id r up h = ground arith

pub delete-eq_missing :
    (db : Database) (id : Uuid)
    → db.failure db.queries ≡ none
    → find_row (not_null id) db.rows ≡ none
    → delete queries id db ≡ (err (sentinel record_not_found), asked db)
unfolding delete cancel_notification
delete-eq_missing db id up h = ground arith

pub delete-eq_failed :
    (db : Database) (id : Uuid) (e : Failure)
    → db.failure db.queries ≡ some e
    → delete queries id db ≡ (err (wrap cancel_what (failure_error e)), asked db)
unfolding delete cancel_notification
delete-eq_failed db id (client s) down = ground arith
delete-eq_failed db id (server s) down = ground arith

-- ===== src/Postgres/Repository.antt =====
-- The methods of `NotificationRepository` in storage/postgres/repository.go, over any `Querier`.
-- What they log is left out.
use delayed_notifier.Prelude.{String, none, some, str_eq, if◌then◌else◌, ⊤}
use delayed_notifier.Go.Errors.{
  Error, sentinel, wrap, record_not_found, duplicate_record, no_rows, errors_is, as_pg_error,
}
use delayed_notifier.Go.Action.{Action, pure, lift, on_error, ◌>>=◌}
use delayed_notifier.Domain.Model.{Uuid, Notification}
use delayed_notifier.Domain.Ports.{NotificationRepository}
use delayed_notifier.Postgres.Rows.{not_null, Querier}
use delayed_notifier.Postgres.Mapping.{to_db_create_params, to_db_update_params, to_domain_model}

-- `pgerrcode.UniqueViolation`
abbrev pub unique_violation : String
unique_violation = "23505"

-- `errors.As(err, &pgErr) && pgErr.Code == pgerrcode.UniqueViolation`
abbrev pub save_error : Error → Error
save_error e = elim (as_pg_error e) [
  | some code ↦
      if str_eq code unique_violation
      then sentinel duplicate_record
      else wrap "postgres: CreateNotification failed" e
  | none ↦ wrap "postgres: CreateNotification failed" e
]

-- The error branch that the other three methods share.
abbrev pub missing_or : String → Error → Error
missing_or what e = if errors_is e no_rows then sentinel record_not_found else wrap what e

module _ {S : Type 0} (queries : Querier S) where
  unfoldable pub save : Notification → Action S Notification
  save n = do
    params ← lift (to_db_create_params n)
    row ← on_error save_error (queries.create_notification params)
    lift (to_domain_model (some row))

  unfoldable pub get_by_id : Uuid → Action S Notification
  get_by_id id = do
    row ←
        on_error (missing_or "postgres: GetNotificationByID failed")
          (queries.get_notification_by_id (not_null id))
    lift (to_domain_model (some row))

  unfoldable pub update : Notification → Action S ⊤
  update n = do
    params ← lift (to_db_update_params n)
    row ←
        on_error (missing_or "postgres: UpdateNotificationStatus failed")
          (queries.update_notification_status params)
    pure tt

  unfoldable pub delete : Uuid → Action S ⊤
  delete id = do
    row ←
        on_error (missing_or "postgres: CancelNotification failed")
          (queries.cancel_notification (not_null id))
    pure tt

  abbrev pub notification_repository : NotificationRepository S
  notification_repository = record {
    save = save;
    get_by_id = get_by_id;
    update = update;
    delete = delete;
  }

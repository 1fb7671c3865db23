-- ===== src/Tests/Api.antt =====
-- Examples for Service and Http.
use delayed_notifier.Prelude.{◌≡◌, ◌↔◌, refl, List, [], none, some}
use delayed_notifier.Prelude.Int.{pos, to_int16}
use delayed_notifier.Go.Errors.{ok}
use delayed_notifier.Domain.Model.{Notification, Fresh, new_email_notification}
use delayed_notifier.Postgres.Sql.{create_notification, cancel_notification}
use delayed_notifier.Postgres.Mapping.{domain_model, to_domain_model, to_db_create_params}
use delayed_notifier.Postgres.Repository.{save, delete}
use delayed_notifier.Service
use delayed_notifier.Service.{CreateInput, cancel_if_scheduled, build_notification}
use delayed_notifier.Service.Create.{Acceptable, build-ok_iff}
use delayed_notifier.Service.Created.{CreateOutcome, create_outcome}
use delayed_notifier.Service.Cancel.{CancelOutcome, cancel_outcome}
use delayed_notifier.Service.Race.{cancel_overwrites_sent}
use delayed_notifier.Domain.Contract.{Same}
use delayed_notifier.Http
use delayed_notifier.Http.Codes.{CancelReply, cancel_codes, GetReply, Views, get_codes}
use delayed_notifier.Tests.Data.{repo, law, queue, parse_address, note, db}

abbrev request : CreateInput
request = record {
  recipient = "a@b.org";
  channel = "email";
  subject = "subject";
  message = "text";
  scheduled_at = pos 5000000000;
  author_id = none;
}

abbrev fresh : Fresh
fresh = record { id = 77; created = pos 1; updated = pos 1 }

abbrev empty : List Notification
empty = []

cancel_outcome_example :
    CancelOutcome repo queue law 3
      (db, empty)
      (Service.cancel_notification repo queue 3 (db, empty))
cancel_outcome_example = cancel_outcome repo queue law 3 (db, []) tt

create_outcome_example :
    CreateOutcome repo queue law parse_address fresh
      (pos 3)
      request
      (db, [])
      (Service.create_notification repo queue parse_address fresh (pos 3) request (db, []))
create_outcome_example =
    create_outcome repo queue law parse_address fresh (pos 3) request (db, []) tt

build-ok_iff_example :
    ((n : Notification) × (build_notification parse_address fresh request ≡ ok n))
    ↔ Acceptable parse_address request
build-ok_iff_example = build-ok_iff parse_address fresh request

cancel_codes_example :
    CancelReply repo queue law 3
      (db, empty)
      (Http.cancel_notification repo queue (ok 3) (db, empty))
cancel_codes_example = cancel_codes repo queue law 3 (db, []) tt

get_codes_example :
    let x = Http.get_notification_by_id repo queue (ok 3) (db, empty) in
    GetReply repo queue law 3 (db, empty) x
    × Same (Views repo queue law (db, empty)) (Views repo queue law x.1)
get_codes_example = get_codes repo queue law 3 (db, []) tt

view_4 : law.view db 4 ≡ some (note 4 "sent")
unfolding domain_model
view_4 = refl

delete_4 : repo.delete 4 db ≡ (ok tt, (repo.delete 4 db).1)
unfolding delete cancel_notification
delete_4 = refl

-- The API read notification 4 before a worker sent it.
cancel_overwrites_sent_example :
    let (r, t) = cancel_if_scheduled repo queue 4 (note 4 "scheduled") (db, empty) in
    (r ≡ ok tt)
    × (k : Notification) × (law.view t.0 4 ≡ some k)
    × (k.status ≡ "cancelled")
    × (k.sent_at ≡ none)
cancel_overwrites_sent_example =
    cancel_overwrites_sent repo queue law 4 (note 4 "scheduled") (note 4 "sent") db
      (repo.delete 4 db).1 [] tt refl view_4 refl delete_4

abbrev built : Notification
built = record (note 77 "scheduled") { sent_at = none }

build_request : build_notification parse_address fresh request ≡ ok built
unfolding build_notification new_email_notification
build_request = refl

abbrev stored : Notification
stored = record (note 0 "scheduled") { created_at = pos 2; updated_at = pos 2 }

save_built : repo.save built db ≡ (ok stored, (repo.save built db).1)
unfolding save create_notification to_db_create_params to_domain_model domain_model to_int16
save_built = refl

abbrev posted : Http.CreateNotificationRequest
posted = record {
  recipient = "a@b.org";
  channel = "email";
  subject = "subject";
  message = "text";
  scheduled_at = pos 5000000000;
  author_id = none;
}

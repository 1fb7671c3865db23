-- ===== src/Tests/Held.antt =====
-- The empty table, a request, and the notification that is stored for it.
use delayed_notifier.Prelude.{◌≡◌, refl, List, [], none, str_eq, if◌then◌else◌}
use delayed_notifier.Prelude.Int.{pos}
use delayed_notifier.Go.Errors.{ok, err, text}
use delayed_notifier.Domain.Model.{Uuid, Notification, Fresh, new_email_notification}
use delayed_notifier.Domain.Json.{JsonCodec}
use delayed_notifier.Postgres.Sql.{Database}
use delayed_notifier.Service.{CreateInput, build_notification}
use delayed_notifier.Consumer.Handler.{World}
use delayed_notifier.Tests.Data.{parse_address, note, db}

abbrev pub W : Type 0
W = World Database (List Uuid × List Notification) (List Notification)

abbrev pub request : CreateInput
request = record {
  recipient = "a@b.org";
  channel = "email";
  subject = "subject";
  message = "text";
  scheduled_at = pos 5000000000;
  author_id = none;
}

abbrev pub fresh : Fresh
fresh = record { id = 77; created = pos 1; updated = pos 1 }

abbrev pub stored : Notification
stored = record (note 0 "scheduled") { created_at = pos 2; updated_at = pos 2 }

abbrev pub built : Notification
built = note 77 "scheduled"

pub build_request : build_notification parse_address fresh request ≡ ok built
unfolding build_notification new_email_notification
build_request = refl

-- One message, "0".
abbrev pub json : JsonCodec
json = record {
  marshal = λ _. ok "0";
  unmarshal = λ s. if str_eq s "0" then ok stored else err (text "unexpected end of JSON input");
}

abbrev pub start : W
start = record { repo = record db { rows = [] }; queue = ([], []); notifier = []; settled = [] }

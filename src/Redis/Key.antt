-- ===== src/Redis/Key.antt =====
-- pkg/keybuilder/builder.go. `uuid_string` is `uuid.UUID.String`, of the package google/uuid.
use Prim.Native.String.{◌++◌}
use delayed_notifier.Prelude.{String}
use delayed_notifier.Domain.Model.{Uuid}

abbrev pub redis : String
redis = "redis"

abbrev pub notification : String
notification = "notification"

-- `fmt.Sprintf("%s:%s:%s", Redis, Notification, id)`
unfoldable pub redis_notification_key_build : (Uuid → String) → Uuid → String
redis_notification_key_build uuid_string id =
    redis ++ (":" ++ (notification ++ (":" ++ uuid_string id)))

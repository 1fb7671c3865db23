-- ===== src/Postgres/Scan.antt =====
-- The `Scan` and `Value` methods of storage/postgres/db/models.go. A receiver is the state of the
-- method. The methods of the two enumerations differ in the type's name alone, the first parameter.
use Prim.Native.String.{◌++◌}
use delayed_notifier.Prelude.{String, true, if◌then◌else◌, ⊤}
use delayed_notifier.Go.Errors.{text, Result, ok}
use delayed_notifier.Go.Action.{Action, fail}
use delayed_notifier.Postgres.Rows.{Nullable, null_text}

-- A `driver.Value`, as far as the methods tell values apart: nil, a `[]byte`, a `string`, or another
-- type, by its name.
pub data DriverValue : Type 0 where
  nil : DriverValue
  bytes string : String → DriverValue
  another : String → DriverValue

-- `%T`
abbrev pub type_name : DriverValue → String
type_name nil = "<nil>"
type_name (bytes _) = "[]uint8"
type_name (string _) = "string"
type_name (another t) = t

abbrev pub unsupported : String → DriverValue → Action String ⊤
unsupported enum src =
    fail (text ("unsupported scan type for " ++ (enum ++ (": " ++ type_name src))))

-- `(e *ChannelType) Scan` and `(e *NotificationStatus) Scan`
unfoldable pub scan : String → DriverValue → Action String ⊤
scan enum (bytes s) e = (ok tt, s)
scan enum (string s) e = (ok tt, s)
scan enum nil e = unsupported enum nil e
scan enum (another t) e = unsupported enum (another t) e

-- A method call on the field `value` of a receiver that is valid now.
abbrev pub into_value : Result ⊤ × String → Result ⊤ × Nullable String
into_value (r, s) = (r, record { value = s; valid = true })

-- `(ns *NullChannelType) Scan` and `(ns *NullNotificationStatus) Scan`
unfoldable pub scan_null : String → DriverValue → Action (Nullable String) ⊤
scan_null enum nil ns = (ok tt, null_text)
scan_null enum (bytes s) ns = into_value (scan enum (bytes s) ns.value)
scan_null enum (string s) ns = into_value (scan enum (string s) ns.value)
scan_null enum (another t) ns = into_value (scan enum (another t) ns.value)

-- `(ns NullChannelType) Value` and `(ns NullNotificationStatus) Value`, which return no error
unfoldable pub null_value : Nullable String → DriverValue
null_value ns = if ns.valid then string ns.value else nil

abbrev pub channel_type : String
channel_type = "ChannelType"

abbrev pub notification_status : String
notification_status = "NotificationStatus"

-- A receiver's column and whether it is not NULL.
abbrev pub NullChannelType : Type 0
NullChannelType = Nullable String

abbrev pub NullNotificationStatus : Type 0
NullNotificationStatus = Nullable String

abbrev pub scan_channel_type : DriverValue → Action String ⊤
scan_channel_type = scan channel_type

abbrev pub scan_notification_status : DriverValue → Action String ⊤
scan_notification_status = scan notification_status

abbrev pub scan_null_channel_type : DriverValue → Action NullChannelType ⊤
scan_null_channel_type = scan_null channel_type

abbrev pub scan_null_notification_status : DriverValue → Action NullNotificationStatus ⊤
scan_null_notification_status = scan_null notification_status

abbrev pub value_null_channel_type : NullChannelType → DriverValue
value_null_channel_type = null_value

abbrev pub value_null_notification_status : NullNotificationStatus → DriverValue
value_null_notification_status = null_value

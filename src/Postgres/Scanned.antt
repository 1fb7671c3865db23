-- ===== src/Postgres/Scanned.antt =====
-- What the methods of storage/postgres/db/models.go write is read back.
use delayed_notifier.Prelude.{◌≡◌, refl, String, Bool-cases, inl, inr, if◌then◌else◌, arith}
use delayed_notifier.Go.Errors.{ok}
use delayed_notifier.Postgres.Rows.{Nullable, null_text}
use delayed_notifier.Postgres.Scan.{
  channel_type, notification_status, NullChannelType, NullNotificationStatus,
  scan_null_channel_type, scan_null_notification_status, value_null_channel_type,
  value_null_notification_status, scan_null, null_value, scan,
}

scan_null-null_value :
    (enum : String) (ns old : Nullable String)
    → scan_null enum (null_value ns) old ≡ (ok tt, if ns.valid then ns else null_text)
unfolding scan_null null_value scan
scan_null-null_value enum ns old = elim (Bool-cases ns.valid) [
  | inl here ↦ rw here (ground arith)
  | inr absent ↦ rw absent refl
]

-- What `Value` gives for a nullable channel or status, `Scan` reads back over any receiver: the
-- same if it is valid, and the NULL value if not.
pub scanned_back :
    (channel old_channel : NullChannelType) (status old_status : NullNotificationStatus)
    → (scan_null_channel_type (value_null_channel_type channel) old_channel
        ≡ (ok tt, if channel.valid then channel else null_text))
      × (scan_null_notification_status (value_null_notification_status status) old_status
          ≡ (ok tt, if status.valid then status else null_text))
scanned_back channel old_channel status old_status = (
  scan_null-null_value channel_type channel old_channel,
  scan_null-null_value notification_status status old_status,
)

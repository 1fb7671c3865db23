-- ===== src/Domain/Json.antt =====
-- `json.Marshal` and `json.Unmarshal` at the type `model.Notification`, and what is relied on: a
-- notification that was marshalled is read back.
use delayed_notifier.Prelude.{String, ◌≡◌}
use delayed_notifier.Go.Errors.{Result, ok}
use delayed_notifier.Domain.Model.{Notification}

pub record JsonCodec : Type 0 where
  pub marshal : Notification → Result String
  pub unmarshal : String → Result Notification

-- `unmarshal` inverts `marshal`. encoding/json does for valid UTF-8 and times in UTC.
abbrev pub RoundTrips : JsonCodec → Type 0
RoundTrips json =
    (n : Notification) (bytes : String) → json.marshal n ≡ ok bytes → json.unmarshal bytes ≡ ok n

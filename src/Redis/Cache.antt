-- ===== src/Redis/Cache.antt =====
-- storage/redis/cache.go over a Redis client and the JSON codec. What the methods log is left out.
use delayed_notifier.Prelude.{String, ⊤, if◌then◌else◌}
use delayed_notifier.Go.Errors.{
  Error, sentinel, wrap, record_not_found, redis_nil, errors_is, map_err,
}
use delayed_notifier.Go.Action.{Action, lift, on_error, ◌>>=◌}
use delayed_notifier.Go.Clock.{Duration}
use delayed_notifier.Domain.Model.{Uuid, Notification}
use delayed_notifier.Domain.Ports.{NotificationCache}
use delayed_notifier.Domain.Json.{JsonCodec}
use delayed_notifier.Redis.Key.{redis_notification_key_build}

-- What the cache uses of a go-redis client.
pub record RedisClient (S : Type 0) : Type 0 where
  pub get : String → Action S String
  pub set : String → String → Duration → Action S ⊤
  pub del : String → Action S ⊤

abbrev pub get_error : Error → Error
get_error e = if errors_is e redis_nil then sentinel record_not_found else e

module _ {S : Type 0} (json : JsonCodec) (uuid_string : Uuid → String)
    (client : RedisClient S) where
  unfoldable pub get : Uuid → Action S Notification
  get id = do
    val ← on_error get_error (client.get (redis_notification_key_build uuid_string id))
    lift (map_err (wrap "failed to unmarshal cached data") (json.unmarshal val))

  unfoldable pub set : Notification → Duration → Action S ⊤
  set n expiration = do
    n_bytes ← lift (map_err (wrap "failed to marshal notification") (json.marshal n))
    client.set (redis_notification_key_build uuid_string n.id) n_bytes expiration

  unfoldable pub delete : Uuid → Action S ⊤
  delete id = client.del (redis_notification_key_build uuid_string id)

  abbrev pub notification_cache : NotificationCache S
  notification_cache = record { get = get; set = set; delete = delete }

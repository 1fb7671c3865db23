-- ===== src/Stack.antt =====
-- The repository that internal/app/fx.go means to build, `NewCachedNotificationRepository` over the
-- one of storage/postgres and the cache of storage/redis, under the API and the workers.
pub mod Table
pub mod Parts
use delayed_notifier.Prelude.{◌≡◌, ◌≢◌, String, ⊤, some}
use delayed_notifier.Go.Errors.{Result, ok}
use delayed_notifier.Domain.Model.{Uuid, Notification, status_scheduled}
use delayed_notifier.Domain.Ports.{
  NotificationRepository, NotificationQueue, NotificationCache, Notifier,
}
use delayed_notifier.Domain.Json.{JsonCodec, RoundTrips}
use delayed_notifier.Domain.Contract.{LawfulCache}
use delayed_notifier.Postgres.Sql.{Database, queries}
use delayed_notifier.Postgres.Repository.{notification_repository}
use delayed_notifier.Postgres.Lawful as Rows
use delayed_notifier.Postgres.Views.{view}
use delayed_notifier.Redis.Cache.{RedisClient, delete, notification_cache}
use delayed_notifier.Redis.Cached.{cached_notification_repository}
use delayed_notifier.Redis.Client.{LawfulClient}
use delayed_notifier.Redis.LawfulCache as Entries
use delayed_notifier.Redis.LawfulCache.{Injective, entry}
use delayed_notifier.Redis.Coherence.{Coherent}
use delayed_notifier.Redis.Lawful as Decorated
use delayed_notifier.Consumer.Handler.{World}
use delayed_notifier.System.{Reach, final_forever}

module _ {C : Type 0} (json : JsonCodec) (uuid_string : Uuid → String)
    (client : RedisClient C) where
  abbrev pub cache : NotificationCache C
  cache = notification_cache json uuid_string client

  abbrev pub repository : NotificationRepository (Database × C)
  repository = cached_notification_repository (notification_repository queries) cache

  module _ (L : LawfulClient client) (round : RoundTrips json) (injective : Injective uuid_string)
      (reliable : (key : String) (c : C) → (client.del key c).0 ≡ ok tt) where
    abbrev pub stack_cache : LawfulCache cache
    stack_cache = Entries.lawful json uuid_string client L round injective

    -- Over the repository that caches notifications of the table in Redis, with a cache that holds
    -- nothing but what is stored at the start, a codec that round-trips, distinct texts for
    -- distinct ids and deletions that do not fail, a notification that is stored with another
    -- status than `scheduled` is the same in the table after any later sequence of calls of the API
    -- and the workers.
    pub stack_forever :
        {Q N : Type 0} (queue : NotificationQueue Q) (notifier : Notifier N)
        (parse_address : String → Result ⊤) {w w' : World (Database × C) Q N} (id : Uuid)
        (n : Notification)
        → Coherent (view w.repo.0) (stack_cache.entry w.repo.1)
        → view w.repo.0 id ≡ some n
        → n.status ≢ status_scheduled
        → Reach json repository queue notifier parse_address w w'
        → view w'.repo.0 id ≡ some n
    unfolding delete
    stack_forever queue notifier parse_address id n coherent was final run =
        final_forever json repository queue notifier parse_address
          (Decorated.lawful Rows.lawful stack_cache (λ id c. reliable _ c)) id n (tt, coherent) was
          final run

-- ===== src/Redis/Cached.antt =====
-- storage/redis/repository.go: `CachedNotificationRepository`. Its state is that of the primary
-- repository and that of the cache; what the methods log is left out.
use delayed_notifier.Prelude.{◌*◌, ⊤}
use delayed_notifier.Prelude.Int.{pos}
use delayed_notifier.Go.Errors.{ok, err}
use delayed_notifier.Go.Action.{Action, pure, ◌>>=◌, ◌>>◌}
use delayed_notifier.Go.Clock.{Duration, nanos_per_second}
use delayed_notifier.Domain.Model.{Uuid, Notification}
use delayed_notifier.Domain.Ports.{NotificationRepository, NotificationCache}

-- `time.Hour * 24`
abbrev pub ttl : Duration
ttl = pos (24 * 3600 * nanos_per_second)

module _ {P C : Type 0} where
  abbrev pub on_primary : {A : Type 0} → Action P A → Action (P × C) A
  on_primary m (p, c) = let (r, p') = m p in (r, (p', c))

  -- A call of the cache whose error is only logged.
  abbrev pub on_cache : {A : Type 0} → Action C A → Action (P × C) ⊤
  on_cache m (p, c) = let (r, c') = m c in (ok tt, (p, c'))

module _ {P C : Type 0} (primary_repo : NotificationRepository P)
    (cache : NotificationCache C) where
  unfoldable pub save : Notification → Action (P × C) Notification
  save n = do
    created ← on_primary (primary_repo.save n)
    on_cache (cache.set created ttl)
    pure created

  -- What is left once the primary repository has answered.
  abbrev pub fill : Notification → Action (P × C) Notification
  fill primary = do on_cache (cache.set primary ttl); pure primary

  -- From the cache miss (or failure) on.
  unfoldable pub fetch : Uuid → Action (P × C) Notification
  fetch id = on_primary (primary_repo.get_by_id id) >>= fill

  unfoldable pub get_by_id : Uuid → Action (P × C) Notification
  unfolding fetch
  get_by_id id (p, c) =
      let (r, c') = cache.get id c in
      elim r [ ok cached ↦ (ok cached, (p, c')) | err _ ↦ fetch id (p, c') ]

  unfoldable pub update : Notification → Action (P × C) ⊤
  update n = do on_primary (primary_repo.update n); on_cache (cache.delete n.id)

  unfoldable pub delete : Uuid → Action (P × C) ⊤
  delete id = do on_primary (primary_repo.delete id); on_cache (cache.delete id)

  abbrev pub cached_notification_repository : NotificationRepository (P × C)
  cached_notification_repository = record {
    save = save;
    get_by_id = get_by_id;
    update = update;
    delete = delete;
  }

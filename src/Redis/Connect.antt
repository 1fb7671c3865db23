-- ===== src/Redis/Connect.antt =====
-- `NewClient` of storage/redis/client.go over the packages go-redis and fx.
use delayed_notifier.Prelude.{String, List, ⊤}
use delayed_notifier.Prelude.Int.{ℤ}
use delayed_notifier.Go.Action.{Action, ◌>>◌}
use delayed_notifier.Go.Errors.{ok}
use delayed_notifier.Config.{Config}
use delayed_notifier.App.Lifecycle.{Hook, on_services, append}

-- `goredis.Options`, with the fields that the program sets.
pub record Options : Type 0 where
  pub addr : String
  pub password : String
  pub db : ℤ

pub record GoRedis (S : Type 0) : Type 0 where
  pub new_client : Options → S → S
  pub ping : Action S ⊤
  pub close : Action S ⊤

module _ {S : Type 0} (goredis : GoRedis S) where
  -- It returns no error.
  unfoldable pub new_client : Config → Action (S × List (Hook S)) ⊤
  new_client cfg = do
    on_services (λ s. (
      ok tt,
      goredis.new_client
          (record { addr = cfg.redis.addr; password = cfg.redis.password; db = cfg.redis.db }) s,
    ))
    append (record { on_start = goredis.ping; on_stop = goredis.close })

-- ===== src/Postgres/Pool.antt =====
-- `NewPool` of storage/postgres/client.go over the packages pgxpool and fx. A `Hook` is what the
-- constructor appends to the lifecycle.
use delayed_notifier.Prelude.{String, List, ⊤}
use delayed_notifier.Prelude.Int.{ℤ, to_int32}
use delayed_notifier.Go.Errors.{wrap, map_err, Result}
use delayed_notifier.Go.Action.{Action, pure, lift, on_error, ◌>>=◌, ◌>>◌}
use delayed_notifier.Go.Clock.{Duration}
use delayed_notifier.Config.{Config}
use delayed_notifier.App.Lifecycle.{Hook, on_services, append}

-- The limits that the program sets in a `pgxpool.Config`: MaxConns, MinConns, MaxConnLifetime.
pub record Limits : Type 0 where
  pub max_conns : ℤ
  pub min_conns : ℤ
  pub max_conn_lifetime : Duration

-- What the program uses of pgxpool; `K` is a parsed connection string.
pub record Pgx (K S : Type 0) : Type 0 where
  pub parse_config : String → Result K
  pub new_with_config : K → Limits → Action S ⊤
  pub ping : Action S ⊤
  pub close : S → S

abbrev pub limits : Config → Limits
limits cfg = record {
  max_conns = to_int32 cfg.postgres.pool.max_open_conns;
  min_conns = to_int32 cfg.postgres.pool.max_idle_conns;
  max_conn_lifetime = cfg.postgres.pool.conn_max_lifetime;
}

module _ {K S : Type 0} (pgx : Pgx K S) where
  abbrev pub pool_hook : Hook S
  pool_hook = record { on_start = pgx.ping; on_stop = λ s. pure tt (pgx.close s) }

  unfoldable pub new_pool : Config → Action (S × List (Hook S)) ⊤
  new_pool cfg = do
    pool_config ← lift (
        map_err (wrap "failed to parse postgres config") (pgx.parse_config cfg.postgres.master_dsn))
    on_services (
        on_error (wrap "failed to create postgres connection pool")
          (pgx.new_with_config pool_config (limits cfg)))
    append pool_hook

-- ===== src/Postgres/PoolLimits.antt =====
-- What `NewPool` asks of pgxpool and leaves in the lifecycle.
use delayed_notifier.Prelude.{◌≡◌, ◌↔◌, refl, List, [], ◌∷◌, ◌++◌, ⊤, arith}
use delayed_notifier.Prelude.Int.{InRange, half_32, to_int32_lem}
use delayed_notifier.Go.Errors.{wrap, Result, ok, err}
use delayed_notifier.Config.{Config}
use delayed_notifier.App.Lifecycle.{Hook}
use delayed_notifier.Postgres.Pool.{Limits, Pgx, limits, pool_hook, new_pool}

module _ {K S : Type 0} (pgx : Pgx K S) where
  -- What the constructor makes of the answer of `NewWithConfig`.
  abbrev pub Made : List (Hook S) → Result ⊤ × S → Result ⊤ × (S × List (Hook S)) → Type 0
  Made hooks (ok _, s) x = x ≡ (ok tt, (s, hooks ++ (pool_hook pgx ∷ [])))
  Made hooks (err e, s) x =
      x ≡ (err (wrap "failed to create postgres connection pool" e), (s, hooks))

  made :
      (cfg : Config) (k : K) (s : S) (hooks : List (Hook S)) (y : Result ⊤ × S)
      → pgx.parse_config cfg.postgres.master_dsn ≡ ok k
      → pgx.new_with_config k (limits cfg) s ≡ y
      → Made hooks y (new_pool pgx cfg (s, hooks))
  unfolding new_pool
  made cfg k s hooks (ok u, s') parsed e = ground arith
  made cfg k s hooks (err x, s') parsed e = ground arith

  -- Where the connection string parses, `NewPool` asks for a pool with limits that are int32
  -- values, each the configured one exactly if that is an int32 value; it appends its hook to the
  -- lifecycle if the pool is made, and else changes nothing there and wraps the error.
  pub pool_limits :
      (cfg : Config) (k : K) (s : S) (hooks : List (Hook S))
      → pgx.parse_config cfg.postgres.master_dsn ≡ ok k
      → (l : Limits) × Made hooks (pgx.new_with_config k l s) (new_pool pgx cfg (s, hooks))
        × InRange half_32 l.max_conns
        × InRange half_32 l.min_conns
        × ((l.max_conns ≡ cfg.postgres.pool.max_open_conns)
            ↔ InRange half_32 cfg.postgres.pool.max_open_conns)
        × ((l.min_conns ≡ cfg.postgres.pool.max_idle_conns)
            ↔ InRange half_32 cfg.postgres.pool.max_idle_conns)
  pool_limits cfg k s hooks parsed =
      let (top, same_top) = to_int32_lem cfg.postgres.pool.max_open_conns in
      let (idle, same_idle) = to_int32_lem cfg.postgres.pool.max_idle_conns in
      (
        limits cfg,
        made cfg k s hooks (pgx.new_with_config k (limits cfg) s) parsed refl,
        top,
        idle,
        same_top,
        same_idle,
      )

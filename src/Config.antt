-- ===== src/Config.antt =====
-- internal/config/config.go: the configuration and `NewConfig` over the package viper.
pub mod Default
use delayed_notifier.Prelude.{String, List, ⊤}
use delayed_notifier.Prelude.Int.{ℤ}
use delayed_notifier.Go.Action.{Action, ◌>>◌}
use delayed_notifier.Go.Clock.{Duration}

pub record LoggerConfig : Type 0 where
  pub level : String

pub record HttpConfig : Type 0 where
  pub port : String
  pub gin_mode : String

pub record PoolConfig : Type 0 where
  pub max_open_conns : ℤ
  pub max_idle_conns : ℤ
  pub conn_max_lifetime : Duration

pub record PostgresConfig : Type 0 where
  pub master_dsn : String
  pub slave_dsns : List String
  pub pool : PoolConfig

pub record RabbitMqConfig : Type 0 where
  pub dsn : String

pub record RedisConfig : Type 0 where
  pub addr : String
  pub password : String
  pub db : ℤ

pub record EmailConfig : Type 0 where
  pub host : String
  pub port : ℤ
  pub username : String
  pub password : String
  pub from : String

pub record TelegramConfig : Type 0 where
  pub bot_token : String

pub record NotifiersConfig : Type 0 where
  pub mode : String
  pub email : EmailConfig
  pub telegram : TelegramConfig

pub record Config : Type 0 where
  pub logger : LoggerConfig
  pub http : HttpConfig
  pub postgres : PostgresConfig
  pub rabbitmq : RabbitMqConfig
  pub redis : RedisConfig
  pub notifiers : NotifiersConfig

-- What the program uses of a `viper.Viper`; `new_replacer` is the pair of texts of the replacer that
-- the code makes.
pub record Viper (V : Type 0) : Type 0 where
  pub set_config_file : String → V → V
  pub set_default : String → String → V → V
  pub set_env_key_replacer : String × String → V → V
  pub automatic_env : V → V
  pub read_in_config : Action V ⊤
  pub unmarshal : Action V Config

module _ {V : Type 0} (v : Viper V) where
  -- The calls before the file is read.
  abbrev pub prepare : V → V
  prepare s =
      let file = v.set_config_file "configs/config.yaml" s in
      let level = v.set_default "logger.level" "info" file in
      let port = v.set_default "http.port" ":8080" level in
      let mode = v.set_default "http.gin_mode" "release" port in
      let notifiers = v.set_default "notifiers.mode" "log_only" mode in
      v.automatic_env (v.set_env_key_replacer (".", "_") notifiers)

  unfoldable pub new_config : Action V Config
  new_config s = (v.read_in_config >> v.unmarshal) (prepare s)

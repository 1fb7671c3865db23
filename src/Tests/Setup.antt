-- ===== src/Tests/Setup.antt =====
-- Examples for the topology, and for a configuration with no mode.
use delayed_notifier.Prelude.{
  ◌≡◌, refl, List, [], ◌∷◌, String, Option, none, some, ⊤, str_eq, if◌then◌else◌,
}
use delayed_notifier.Prelude.Int.{pos}
use delayed_notifier.Go.Errors.{ok}
use delayed_notifier.Go.Action.{Action}
use delayed_notifier.Domain.Contract.{Ensures}
use delayed_notifier.Config.{Config, NotifiersConfig, Viper, prepare, new_config}
use delayed_notifier.Config.Default.{LawfulViper}
use delayed_notifier.Prelude.Membership.{Member, here, there}
use delayed_notifier.Rabbit.Channel.{Table, Channel}
use delayed_notifier.Rabbit.Topology.{wait_exchange, retry_exchange}
use delayed_notifier.Rabbit.Broker.{Declared, Keeps, LawfulChannel}
use delayed_notifier.Rabbit.Publisher.{new_rabbitmq_queue}
use delayed_notifier.Rabbit.Routes.{Leads, topology-Leads}
use delayed_notifier.Notifiers.Channels.{Outside, MockSend, Mail, ChatMessage}
use delayed_notifier.Notifiers.Dispatcher.{dispatcher, defaults, new_dispatcher}
use delayed_notifier.App.DryRun.{Runs, only_logs}
use delayed_notifier.System.{Call}
use delayed_notifier.Postgres.Sql.{Database}
use delayed_notifier.Domain.Model.{Notification}
use delayed_notifier.Consumer.Handler.{World, handle_message}
use delayed_notifier.Tests.Data.{repo, queue, json, parse_address, world}

-- A broker by what was declared.
record Broker : Type 0 where
  exchanges : List (String × String)
  queues : List (String × Table)
  bindings : List (String × (String × String))

abbrev broker : Channel Broker
broker = record {
  exchange_declare = λ name kind _ s. (ok tt, record s { exchanges = (name, kind) ∷ s.exchanges });
  queue_declare = λ name _ args s. (ok tt, record s { queues = (name, args) ∷ s.queues });
  queue_bind = λ queue key exchange s.
      (ok tt, record s { bindings = (queue, (key, exchange)) ∷ s.bindings });
  publish = λ _ _ _ s. (ok tt, s);
}

abbrev declared : Declared Broker
declared = record {
  exchange = λ s name kind. Member (name, kind) s.exchanges;
  queue = λ s name args. Member (name, args) s.queues;
  bound = λ s queue key exchange. Member (queue, (key, exchange)) s.bindings;
}

abbrev broker_lawful : LawfulChannel broker
broker_lawful = record {
  declared = declared;
  exchange_law = λ s name kind durable.
      (here, record { exchange = λ _ _ m. there m; queue = λ _ _ m. m; bound = λ _ _ _ m. m });
  queue_law = λ s name durable args.
      (here, record { exchange = λ _ _ m. m; queue = λ _ _ m. there m; bound = λ _ _ _ m. m });
  bind_law = λ s queue key exchange.
      (here, record { exchange = λ _ _ m. m; queue = λ _ _ m. m; bound = λ _ _ _ m. there m });
}

abbrev blank : Broker
blank = record { exchanges = []; queues = []; bindings = [] }

abbrev opens : Action Broker ⊤
opens s = (ok tt, s)

topology-Leads_example :
    Ensures {A = Channel Broker}
      (λ _ s.
        Leads broker_lawful wait_exchange s
        × Leads broker_lawful retry_exchange s
        × Keeps declared blank s)
      (λ _ s. Keeps declared blank s)
      (new_rabbitmq_queue opens broker blank)
topology-Leads_example =
    topology-Leads broker_lawful opens
      (λ s. record { exchange = λ _ _ m. m; queue = λ _ _ m. m; bound = λ _ _ _ m. m }) blank

abbrev notifiers : String → NotifiersConfig
notifiers mode = record {
  mode = mode;
  email = record { host = "mail"; port = pos 25; username = ""; password = ""; from = "n@b.org" };
  telegram = record { bot_token = "token" };
}

-- A pool with more connections than an int32 holds.
abbrev config : String → Config
config mode = record {
  logger = record { level = "info" };
  http = record { port = ":8080"; gin_mode = "release" };
  postgres = record {
    master_dsn = "postgres://";
    slave_dsns = [];
    pool = record {
      max_open_conns = pos 4294967297;
      max_idle_conns = pos 10;
      conn_max_lifetime = pos 0;
    };
  };
  rabbitmq = record { dsn = "amqp://" };
  redis = record { addr = "redis"; password = ""; db = pos 0 };
  notifiers = notifiers mode;
}

-- A viper of defaults alone.
abbrev Defaults : Type 0
Defaults = String → Option String

abbrev or_empty : Option String → String
or_empty none = ""
or_empty (some s) = s

abbrev viper : Viper Defaults
viper = record {
  set_config_file = λ _ s. s;
  set_default = λ key value s key'. if str_eq key' key then some value else s key';
  set_env_key_replacer = λ _ s. s;
  automatic_env = λ s. s;
  read_in_config = λ s. (ok tt, s);
  unmarshal = λ s. (ok (config (or_empty (s "notifiers.mode"))), s);
}

abbrev viper_lawful : LawfulViper viper
viper_lawful = record {
  default = λ s. s;
  setting = λ s key. none;
  default_set = λ s key key' value. refl;
  default_env = λ s key. refl;
  default_replacer = λ s r key. refl;
  read_law = λ s key. refl;
  mode_law = λ s mode unset h. rw h refl;
}

-- The lines that were logged, and the mails and messages that were sent.
abbrev Traffic : Type 0
Traffic = List MockSend × (List Mail × List ChatMessage)

abbrev out : Outside Traffic
out = record {
  log = λ line s. (line ∷ s.0, s.1);
  dial_and_send = λ _ mail s. (ok tt, (s.0, (mail ∷ s.1.0, s.1.1)));
  bot_send = λ _ msg s. (ok tt, (s.0, (s.1.0, msg ∷ s.1.1)));
}

abbrev nothing : Defaults
nothing _ = none

made_config : new_config viper nothing ≡ (ok (config "log_only"), prepare viper nothing)
unfolding new_config
made_config = refl

made_dispatcher : new_dispatcher (λ _. ok tt) (notifiers "log_only") ≡ ok defaults
unfolding new_dispatcher
made_dispatcher = refl

abbrev begin : World Database (List Notification) Traffic
begin = record { repo = world.repo; queue = world.queue; notifier = ([], ([], [])); settled = [] }

-- A worker handles the message of notification 3.
abbrev after_3 : World Database (List Notification) Traffic
after_3 = handle_message json repo queue (dispatcher out defaults) (pos 9) "3" begin

run_3 : Runs json repo queue (dispatcher out defaults) parse_address begin after_3
run_3 = Runs.calls Runs.here (Call.handles begin (pos 9) "3")

only_logs_example : after_3.notifier.1 ≡ ([], [])
only_logs_example =
    only_logs out (λ s. s.1 ≡ ([], [])) (λ _ _ h. h) viper_lawful json repo queue parse_address
      (λ _. ok tt) nothing (prepare viper nothing) (prepare viper nothing) (config "log_only")
      defaults refl refl made_config made_dispatcher refl run_3

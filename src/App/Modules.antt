-- ===== src/App/Modules.antt =====
-- The modules of internal/app/fx.go as data: the parameters and the result of each constructor that
-- they provide, the decorator, and what the functions to invoke take.
use delayed_notifier.Prelude.Membership.{Member}
use delayed_notifier.Prelude.{List, [], ◌∷◌, ◌++◌}

-- The types that constructors take and return. The last four are the interfaces
-- `repo.NotificationRepository`, `repo.NotificationQueue` and `notifiers.Notifier`, and the value type
-- `zerolog.Logger`; `logger` is `*zerolog.Logger`.
pub data Component : Type 0 where
  lifecycle config logger pool redis_client amqp_connection : Component
  notification_cache notification_repository rabbitmq_queue : Component
  notification_service handlers server dispatcher consumer : Component
  repository_port queue_port notifier_port logger_value : Component

pub record Constructor : Type 0 where
  pub needs : List Component
  pub gives : Component

pub record Module : Type 0 where
  pub provides : List Constructor
  pub decorates : List Constructor
  pub invokes : List (List Component)

abbrev pub new_config : Constructor
new_config = record { needs = []; gives = config }

abbrev pub new_logger : Constructor
new_logger = record { needs = config ∷ []; gives = logger }

abbrev pub new_pool : Constructor
new_pool = record { needs = lifecycle ∷ config ∷ []; gives = pool }

abbrev pub new_client : Constructor
new_client = record { needs = lifecycle ∷ config ∷ []; gives = redis_client }

abbrev pub new_connection : Constructor
new_connection = record { needs = config ∷ []; gives = amqp_connection }

abbrev pub new_notification_cache : Constructor
new_notification_cache = record { needs = logger ∷ redis_client ∷ []; gives = notification_cache }

abbrev pub new_notification_repository : Constructor
new_notification_repository = record { needs = pool ∷ logger ∷ []; gives = notification_repository }

abbrev pub new_rabbitmq_queue : Constructor
new_rabbitmq_queue = record { needs = amqp_connection ∷ logger ∷ []; gives = rabbitmq_queue }

abbrev pub new_notification_service : Constructor
new_notification_service = record {
  needs = repository_port ∷ queue_port ∷ logger_value ∷ [];
  gives = notification_service;
}

abbrev pub new_handlers : Constructor
new_handlers = record { needs = notification_service ∷ logger ∷ []; gives = handlers }

abbrev pub new_server : Constructor
new_server = record { needs = config ∷ handlers ∷ logger ∷ []; gives = server }

abbrev pub new_dispatcher : Constructor
new_dispatcher = record { needs = config ∷ logger ∷ []; gives = dispatcher }

abbrev pub new_consumer : Constructor
new_consumer = record {
  needs =
      config ∷ logger ∷ amqp_connection ∷ notification_service ∷ queue_port ∷ notifier_port ∷ [];
  gives = consumer;
}

-- The function that is given to `fx.Decorate`.
abbrev pub cached_repository : Constructor
cached_repository = record {
  needs = notification_repository ∷ notification_cache ∷ logger ∷ [];
  gives = repository_port;
}

abbrev pub common_module : Module
common_module = record {
  provides =
      new_config ∷ new_logger ∷ new_pool ∷ new_client ∷ new_connection ∷ new_notification_cache
      ∷ new_notification_repository ∷ new_rabbitmq_queue ∷ new_notification_service ∷ [];
  decorates = cached_repository ∷ [];
  invokes = [];
}

abbrev pub api_module : Module
api_module = record common_module {
  provides = common_module.provides ++ (new_handlers ∷ new_server ∷ []);
  invokes = (server ∷ lifecycle ∷ []) ∷ [];
}

abbrev pub worker_module : Module
worker_module = record common_module {
  provides = common_module.provides ++ (new_dispatcher ∷ new_consumer ∷ []);
  invokes = (consumer ∷ lifecycle ∷ []) ∷ [];
}

-- What a container of uber/fx can make: the lifecycle, which it brings, and the result of a provided
-- constructor whose parameters it can make, by the type exactly. A decorator replaces a value of a
-- type that is made; it makes none.
mutual
  pub data Available (m : Module) : Component → Type 0 where
    brought : Available m lifecycle
    built : (c : Constructor) → Member c m.provides → AllAvailable m c.needs → Available m c.gives

  pub data AllAvailable (m : Module) : List Component → Type 0 where
    none_needed : AllAvailable m []
    needed :
        {t : Component} {ts : List Component}
        → Available m t
        → AllAvailable m ts
        → AllAvailable m (t ∷ ts)

-- The process starts: every function to invoke gets its arguments.
abbrev pub Starts : Module → Type 0
Starts m = (args : List Component) → Member args m.invokes → AllAvailable m args

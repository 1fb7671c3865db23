-- ===== src/Tests/Wired.antt =====
-- The modules of internal/app/fx.go with the four types provided that its constructors take and none
-- of them gives.
use delayed_notifier.Prelude.Membership.{here, there}
use delayed_notifier.Prelude.{List, [], ◌∷◌, ◌++◌}
use delayed_notifier.App.Modules.{
  lifecycle, Component, config, logger, pool, amqp_connection, notification_repository,
  rabbitmq_queue, notification_service, handlers, server, dispatcher, consumer, repository_port,
  queue_port, notifier_port, logger_value, Constructor, new_config, new_logger, new_pool,
  new_connection, new_notification_repository, new_rabbitmq_queue, new_notification_service,
  new_handlers, new_server, new_dispatcher, new_consumer, Module, common_module, Available, brought,
  built, none_needed, needed, Starts,
}

-- A constructor that gives a value as an interface, or a pointer's target.
abbrev given_as : Component → Component → Constructor
given_as t u = record { needs = t ∷ []; gives = u }

abbrev as_repository : Constructor
as_repository = given_as notification_repository repository_port

abbrev as_queue : Constructor
as_queue = given_as rabbitmq_queue queue_port

abbrev as_notifier : Constructor
as_notifier = given_as dispatcher notifier_port

abbrev logger_by_value : Constructor
logger_by_value = given_as logger logger_value

-- A process: the constructors of `CommonModule` and those that were missing, more of them, and what
-- is invoked.
abbrev process : List Constructor → List (List Component) → Module
process more invoked = record common_module {
  provides =
      as_repository ∷ as_queue ∷ as_notifier ∷ logger_by_value ∷ (common_module.provides ++ more);
  invokes = invoked;
}

module _ (more : List Constructor) (invoked : List (List Component)) where
  abbrev m : Module
  m = process more invoked

  config_made : Available m config
  config_made = built new_config (there (there (there (there here)))) none_needed

  logger_made : Available m logger
  logger_made =
      built new_logger (there (there (there (there (there here))))) (needed config_made none_needed)

  pool_made : Available m pool
  pool_made =
      built new_pool (there (there (there (there (there (there here))))))
        (needed brought (needed config_made none_needed))

  amqp_connection_made : Available m amqp_connection
  amqp_connection_made =
      built new_connection (there (there (there (there (there (there (there (there here))))))))
        (needed config_made none_needed)

  notification_repository_made : Available m notification_repository
  notification_repository_made =
      built new_notification_repository
        (there (there (there (there (there (there (there (there (there (there here))))))))))
        (needed pool_made (needed logger_made none_needed))

  repository_port_made : Available m repository_port
  repository_port_made = built as_repository here (needed notification_repository_made none_needed)

  rabbitmq_queue_made : Available m rabbitmq_queue
  rabbitmq_queue_made =
      built new_rabbitmq_queue
        (there (there (there (there (there (there (there (there (there (there (there here)))))))))))
        (needed amqp_connection_made (needed logger_made none_needed))

  queue_port_made : Available m queue_port
  queue_port_made = built as_queue (there here) (needed rabbitmq_queue_made none_needed)

  logger_value_made : Available m logger_value
  logger_value_made =
      built logger_by_value (there (there (there here))) (needed logger_made none_needed)

  notification_service_made : Available m notification_service
  notification_service_made =
      built new_notification_service
        (there (
          there
            (there (there (there (there (there (there (there (there (there (there here))))))))))))
        (needed repository_port_made
          (needed queue_port_made (needed logger_value_made none_needed)))

abbrev api : Module
api = process (new_handlers ∷ new_server ∷ []) ((server ∷ lifecycle ∷ []) ∷ [])

handlers_made : Available api handlers
handlers_made =
    built new_handlers
      (there (
        there (
          there
            (there (there (there (there (there (there (there (there (there (there here)))))))))))))
      (needed (notification_service_made _ _) (needed (logger_made _ _) none_needed))

server_made : Available api server
server_made =
    built new_server
      (there (
        there (
          there (
            there (
              there
                (there (there (there (there (there (there (there (there (there here))))))))))))))
      (needed (config_made _ _) (needed handlers_made (needed (logger_made _ _) none_needed)))

-- With those, the container can start the API process.
api-Starts : Starts api
api-Starts args here = needed server_made (needed brought none_needed)
api-Starts args (there i) = elim i [ ]

abbrev worker : Module
worker = process (new_dispatcher ∷ new_consumer ∷ []) ((consumer ∷ lifecycle ∷ []) ∷ [])

dispatcher_made : Available worker dispatcher
dispatcher_made =
    built new_dispatcher
      (there (
        there (
          there
            (there (there (there (there (there (there (there (there (there (there here)))))))))))))
      (needed (config_made _ _) (needed (logger_made _ _) none_needed))

notifier_port_made : Available worker notifier_port
notifier_port_made = built as_notifier (there (there here)) (needed dispatcher_made none_needed)

consumer_made : Available worker consumer
consumer_made =
    built new_consumer
      (there (
        there (
          there (
            there (
              there
                (there (there (there (there (there (there (there (there (there here))))))))))))))
      (needed (config_made _ _) (
        needed (logger_made _ _) (
          needed (amqp_connection_made _ _) (
            needed (notification_service_made _ _)
              (needed (queue_port_made _ _) (needed notifier_port_made none_needed))))))

-- With those, the container can start the worker process.
worker-Starts : Starts worker
worker-Starts args here = needed consumer_made (needed brought none_needed)
worker-Starts args (there i) = elim i [ ]

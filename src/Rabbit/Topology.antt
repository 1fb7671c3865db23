-- ===== src/Rabbit/Topology.antt =====
-- The constants and `setupTopology` of storage/rabbitmq/queue.go.
use Prim.Native.String.{◌++◌}
use delayed_notifier.Prelude.{String, List, [], ◌∷◌, true, ⊤}
use delayed_notifier.Go.Errors.{wrap}
use delayed_notifier.Go.Action.{Action, pure, on_error, ◌>>=◌, ◌>>◌}
use delayed_notifier.Rabbit.Channel.{Table, Channel}

abbrev pub wait_exchange : String
wait_exchange = "wait.exchange"

abbrev pub retry_exchange : String
retry_exchange = "retry.exchange"

abbrev pub notifications_exchange : String
notifications_exchange = "notifications.exchange"

abbrev pub notifications_queue : String
notifications_queue = "notifications.queue.process"

abbrev pub wait_queue : String
wait_queue = "wait.queue.delay"

abbrev pub retry_queue : String
retry_queue = "retry.queue.delay"

abbrev pub direct : String
direct = "direct"

-- Name and kind.
abbrev pub exchanges_to_declare : List (String × String)
exchanges_to_declare =
    (notifications_exchange, direct) ∷ (wait_exchange, direct) ∷ (retry_exchange, direct) ∷ []

abbrev pub wait_queue_args : Table
wait_queue_args = ("x-dead-letter-exchange", notifications_exchange) ∷ []

abbrev pub retry_queue_args : Table
retry_queue_args = ("x-dead-letter-exchange", notifications_exchange) ∷ []

module _ {S : Type 0} (ch : Channel S) where
  -- The loop over `exchangesToDeclare`.
  abbrev pub declare_exchanges : List (String × String) → Action S ⊤
  declare_exchanges [] = pure tt
  declare_exchanges ((name, kind) ∷ rest) =
      on_error (wrap ("failed to declare exchange " ++ name)) (ch.exchange_declare name kind true)
      >>= λ _. declare_exchanges rest

  abbrev pub declare_queue : String → Table → Action S ⊤
  declare_queue name args =
      on_error (wrap ("failed to declare queue " ++ name)) (ch.queue_declare name true args)

  abbrev pub bind_queue : String → String → Action S ⊤
  bind_queue queue exchange =
      on_error (wrap ("failed to bind queue " ++ (queue ++ (" to exchange " ++ exchange))))
        (ch.queue_bind queue "" exchange)

  unfoldable pub setup_topology : Action S ⊤
  setup_topology = do
    declare_exchanges exchanges_to_declare
    declare_queue notifications_queue []
    declare_queue wait_queue wait_queue_args
    declare_queue retry_queue retry_queue_args
    bind_queue notifications_queue notifications_exchange
    bind_queue wait_queue wait_exchange
    bind_queue retry_queue retry_exchange

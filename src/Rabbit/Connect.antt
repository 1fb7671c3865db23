-- ===== src/Rabbit/Connect.antt =====
-- `NewConnection` of storage/rabbitmq/client.go. The parameter is `amqp.Dial`.
use delayed_notifier.Prelude.{String, ⊤}
use delayed_notifier.Go.Errors.{wrap}
use delayed_notifier.Go.Action.{Action, on_error}
use delayed_notifier.Config.{Config}

unfoldable pub new_connection : {S : Type 0} → (String → Action S ⊤) → Config → Action S ⊤
new_connection dial cfg = on_error (wrap "rabbitmq: failed to connect") (dial cfg.rabbitmq.dsn)

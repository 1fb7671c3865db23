-- ===== src/Rabbit/Publisher.antt =====
-- `NewRabbitMQQueue` and `Close` of storage/rabbitmq/queue.go. What they log is left out.
use delayed_notifier.Prelude.{Option, none, some, ⊤}
use delayed_notifier.Go.Errors.{wrap}
use delayed_notifier.Go.Action.{Action, pure, on_error, ◌>>◌}
use delayed_notifier.Rabbit.Channel.{Channel}
use delayed_notifier.Rabbit.Topology.{setup_topology}

-- `open_channel` is `conn.Channel()`; the queue that the code returns is its channel.
unfoldable pub new_rabbitmq_queue : {S : Type 0} → Action S ⊤ → Channel S → Action S (Channel S)
new_rabbitmq_queue open_channel ch = do
  on_error (wrap "storage: rabbitMQ: New: Failed to open a channel") open_channel
  on_error (wrap "storage: rabbitMQ: New: Failed to setup topology") (setup_topology ch)
  pure ch

-- `q.ch`, which may be nil, by its `Close`.
abbrev pub close : {S : Type 0} → Option (Action S ⊤) → Action S ⊤
close (some close_channel) = close_channel
close none = pure tt

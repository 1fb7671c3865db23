-- ===== src/Consumer/Worker.antt =====
-- `runWorker` of internal/consumer/consumer.go: a channel of its own, the consumer's registration, and
-- the loop over the context and the deliveries. What it logs is left out.
use Prim.Native.String.{◌++◌}
use delayed_notifier.Prelude.{ℕ, String, List, [], ◌∷◌, ⊤}
use delayed_notifier.Prelude.Int.{pos}
use delayed_notifier.Go.Errors.{Result, ok, err}
use delayed_notifier.Go.Action.{Action}
use delayed_notifier.Go.Clock.{Time}
use delayed_notifier.Go.Decimal.{format_int}
use delayed_notifier.Domain.Ports.{NotificationRepository, NotificationQueue, Notifier}
use delayed_notifier.Domain.Json.{JsonCodec}
use delayed_notifier.Rabbit.Topology.{notifications_queue}
use delayed_notifier.Consumer.Handler.{World, handle_message}

-- What a worker uses of an `amqp.Connection` and of the channel that it opens there. The flags that
-- the code passes as false (global, autoAck, exclusive, noLocal, noWait) and the nil table are left out.
pub record Connection (C : Type 0) : Type 0 where
  -- `conn.Channel()`
  pub channel : Action C ⊤
  -- the prefetch count, with a prefetch size of 0
  pub qos : ℕ → Action C ⊤
  -- queue, consumer tag
  pub consume : String → String → Action C ⊤
  -- `ch.Close()`, whose error the code drops
  pub close : C → C

-- What one round of the `select` gets: the context is done, the deliveries are closed, or a delivery
-- with its body, sent at the time after the send.
pub data Event : Type 0 where
  cancelled closed : Event
  delivered : Time → String → Event

-- `fmt.Sprintf("worker-%d", workerID)`
abbrev pub worker_tag : ℕ → String
worker_tag worker_id = "worker-" ++ format_int (pos worker_id)

-- How a worker stands: it has returned, or it waits for the next event.
pub data Status : Type 0 where
  returned waiting : Status

module _ {R Q N C : Type 0} (json : JsonCodec) (repo : NotificationRepository R)
    (queue : NotificationQueue Q) (notifier : Notifier N) (conn : Connection C) where
  -- The loop, on the events that came so far.
  unfoldable pub receive : List Event → World R Q N → Status × World R Q N
  receive [] w = (waiting, w)
  receive (cancelled ∷ es) w = (returned, w)
  receive (closed ∷ es) w = (returned, w)
  receive (delivered now body ∷ es) w =
      receive es (handle_message json repo queue notifier now body w)

  -- `defer ch.Close()` runs when the function returns.
  abbrev pub deferred_close : Status × World R Q N → C → Status × (C × World R Q N)
  deferred_close (returned, w) c = (returned, (conn.close c, w))
  deferred_close (waiting, w) c = (waiting, (c, w))

  -- From the registration on.
  abbrev pub after_consume : List Event → World R Q N → Result ⊤ × C → Status × (C × World R Q N)
  after_consume es w (err _, c) = deferred_close (returned, w) c
  after_consume es w (ok _, c) = deferred_close (receive es w) c

  abbrev pub after_qos : ℕ → List Event → World R Q N → Result ⊤ × C → Status × (C × World R Q N)
  after_qos worker_id es w (err _, c) = deferred_close (returned, w) c
  after_qos worker_id es w (ok _, c) =
      after_consume es w (conn.consume notifications_queue (worker_tag worker_id) c)

  abbrev pub after_channel :
      ℕ → List Event → World R Q N → Result ⊤ × C → Status × (C × World R Q N)
  after_channel worker_id es w (err _, c) = (returned, (c, w))
  after_channel worker_id es w (ok _, c) = after_qos worker_id es w (conn.qos 1 c)

  unfoldable pub run_worker : ℕ → List Event → C × World R Q N → Status × (C × World R Q N)
  run_worker worker_id es (c, w) = after_channel worker_id es w (conn.channel c)

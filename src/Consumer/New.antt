-- ===== src/Consumer/New.antt =====
-- The struct and the constructor of internal/consumer/consumer.go, and its `Start`. The logger is left
-- out.
use delayed_notifier.Prelude.{ℕ, String, ⊤}
use delayed_notifier.Go.Errors.{Result}
use delayed_notifier.Config.{Config}
use delayed_notifier.Domain.Ports.{NotificationQueue, Notifier}
use delayed_notifier.Domain.Json.{JsonCodec}
use delayed_notifier.Service.{NotificationService}
use delayed_notifier.Consumer.Handler.{World}
use delayed_notifier.Consumer.Worker.{Connection}
use delayed_notifier.Consumer.Pool.{default_worker_count}
use delayed_notifier.Consumer.Start.{Workers, Started}

pub record Consumer (R Q N C : Type 0) : Type 0 where
  pub cfg : Config
  pub conn : Connection C
  pub service : NotificationService R Q
  pub queue : NotificationQueue Q
  pub notifier : Notifier N
  pub worker_count : ℕ

module _ {R Q N C : Type 0} where
  abbrev pub new :
      Config
      → Connection C
      → NotificationService R Q
      → NotificationQueue Q
      → Notifier N
      → Consumer R Q N C
  new cfg conn service queue notifier = record {
    cfg = cfg;
    conn = conn;
    service = service;
    queue = queue;
    notifier = notifier;
    worker_count = default_worker_count;
  }

  -- The states that the consumer's `Start` comes to.
  abbrev pub Start :
      JsonCodec
      → (String → Result ⊤)
      → Consumer R Q N C
      → C
      → World R Q N
      → Workers R Q N C
      → Type 0
  Start json parse_address c =
      Started json c.service.repo c.queue c.notifier c.conn parse_address c.worker_count

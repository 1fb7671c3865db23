-- ===== src/Rabbit/Broker.antt =====
-- What is relied on of a RabbitMQ broker behind an `amqp.Channel`: a declaration that succeeds has
-- been made, with these arguments, and no call of a channel undoes one.
use delayed_notifier.Prelude.{String, Bool}
use delayed_notifier.Domain.Contract.{Ensures}
use delayed_notifier.Rabbit.Channel.{Table, Channel}

-- What a broker has: exchanges by name and kind, queues by name and arguments, bindings by queue,
-- routing key and exchange.
pub record Declared (S : Type 0) : Type 1 where
  pub exchange : S → String → String → Type 0
  pub queue : S → String → Table → Type 0
  pub bound : S → String → String → String → Type 0

pub record Keeps {S : Type 0} (D : Declared S) (s s' : S) : Type 0 where
  pub exchange : (name kind : String) → D.exchange s name kind → D.exchange s' name kind
  pub queue : (name : String) (args : Table) → D.queue s name args → D.queue s' name args
  pub bound :
      (queue key exchange : String) → D.bound s queue key exchange → D.bound s' queue key exchange

pub record LawfulChannel {S : Type 0} (ch : Channel S) : Type 1 where
  pub declared : Declared S
  pub exchange_law :
      (s : S) (name kind : String) (durable : Bool)
      → Ensures
          (λ _ s'. declared.exchange s' name kind × Keeps declared s s')
          (λ _ s'. Keeps declared s s')
          (ch.exchange_declare name kind durable s)
  pub queue_law :
      (s : S) (name : String) (durable : Bool) (args : Table)
      → Ensures
          (λ _ s'. declared.queue s' name args × Keeps declared s s')
          (λ _ s'. Keeps declared s s')
          (ch.queue_declare name durable args s)
  pub bind_law :
      (s : S) (queue key exchange : String)
      → Ensures
          (λ _ s'. declared.bound s' queue key exchange × Keeps declared s s')
          (λ _ s'. Keeps declared s s')
          (ch.queue_bind queue key exchange s)

-- ===== src/Rabbit/Channel.antt =====
-- What the program uses of an `amqp.Channel`, of the package amqp091-go.
use delayed_notifier.Prelude.{String, List, Bool, ⊤}
use delayed_notifier.Go.Action.{Action}

-- `amqp.Table`; all values in this program are texts.
abbrev pub Table : Type 0
Table = List (String × String)

-- `amqp.Publishing`, with the fields that the program sets. `Expiration` is a text.
pub record Publishing : Type 0 where
  pub content_type : String
  pub body : String
  pub persistent : Bool
  pub expiration : String

-- The flags that every call of the program leaves false (autoDelete, internal, exclusive, noWait,
-- mandatory, immediate) are left out.
pub record Channel (S : Type 0) : Type 0 where
  -- name, kind, durable
  pub exchange_declare : String → String → Bool → Action S ⊤
  -- name, durable, arguments
  pub queue_declare : String → Bool → Table → Action S ⊤
  -- queue, routing key, exchange
  pub queue_bind : String → String → String → Action S ⊤
  -- exchange, routing key, message
  pub publish : String → String → Publishing → Action S ⊤

-- ===== src/Rabbit/Routes.antt =====
-- Where the topology of storage/rabbitmq/queue.go leads a message, over a broker that keeps its
-- contract.
use Prim.Native.String.{◌++◌}
use delayed_notifier.Prelude.{true, String, List, [], ◌∷◌, ⊤}
use delayed_notifier.Go.Errors.{wrap, Result, ok, err}
use delayed_notifier.Go.Action.{Action, pure, on_error, ◌>>◌}
use delayed_notifier.Domain.Contract.{Ensures}
use delayed_notifier.Rabbit.Channel.{Table, Channel}
use delayed_notifier.Rabbit.Broker.{Keeps, LawfulChannel}
use delayed_notifier.Rabbit.Topology.{
  wait_exchange, retry_exchange, notifications_exchange, notifications_queue, wait_queue,
  retry_queue, direct, exchanges_to_declare, wait_queue_args, retry_queue_args, declare_exchanges,
  declare_queue, bind_queue, setup_topology,
}
use delayed_notifier.Rabbit.Brings.{
  Kept, Kept-refl, Kept-trans, Brings, Lasts, bring_then, bring_on_error,
}
use delayed_notifier.Rabbit.Publisher.{new_rabbitmq_queue}

module _ {S : Type 0} {ch : Channel S} (L : LawfulChannel ch) where
  has_exchange : (name kind : String) → Lasts L (λ s. L.declared.exchange s name kind)
  has_exchange name kind s s' kept h = kept.exchange name kind h

  has_queue : (name : String) (args : Table) → Lasts L (λ s. L.declared.queue s name args)
  has_queue name args s s' kept h = kept.queue name args h

  -- The exchanges of a list.
  abbrev Exchanges : List (String × String) → S → Type 0
  Exchanges [] s = ⊤
  Exchanges ((name, kind) ∷ rest) s = L.declared.exchange s name kind × Exchanges rest s

  Exchanges-Lasts : (l : List (String × String)) → Lasts L (Exchanges l)
  Exchanges-Lasts [] s s' kept h = tt
  Exchanges-Lasts ((name, kind) ∷ rest) s s' kept h =
      (kept.exchange name kind h.0, Exchanges-Lasts rest s s' kept h.1)

  declares : (l : List (String × String)) → Brings L (Exchanges l) (declare_exchanges ch l)
  declares [] s = (tt, Kept-refl L s)
  declares ((name, kind) ∷ rest) s =
      bring_then L (λ t. L.declared.exchange t name kind) (Exchanges rest)
        (on_error (wrap ("failed to declare exchange " ++ name))
          (ch.exchange_declare name kind true))
        (declare_exchanges ch rest) (has_exchange name kind)
        (bring_on_error L (λ t. L.declared.exchange t name kind) _
          (ch.exchange_declare name kind true) (λ t. L.exchange_law t name kind true))
        (declares rest) s

  declares_queue :
      (name : String) (args : Table)
      → Brings L (λ s. L.declared.queue s name args) (declare_queue ch name args)
  declares_queue name args =
      bring_on_error L (λ s. L.declared.queue s name args) _ (ch.queue_declare name true args)
        (λ s. L.queue_law s name true args)

  binds :
      (queue exchange : String)
      → Brings L (λ s. L.declared.bound s queue "" exchange) (bind_queue ch queue exchange)
  binds queue exchange =
      bring_on_error L (λ s. L.declared.bound s queue "" exchange) _
        (ch.queue_bind queue "" exchange) (λ s. L.bind_law s queue "" exchange)

  -- A message that is published to the exchange with an empty key: the queue where it waits, and the
  -- exchange to which it goes when it expires, from where it reaches the workers' queue.
  pub record Leads (exchange : String) (s : S) : Type 0 where
    pub waits : String
    pub dead_letters : String
    pub published : L.declared.exchange s exchange direct
    pub bound : L.declared.bound s waits "" exchange
    pub declared : L.declared.queue s waits (("x-dead-letter-exchange", dead_letters) ∷ [])
    pub expired : L.declared.exchange s dead_letters direct
    pub returns : L.declared.bound s notifications_queue "" dead_letters
    pub consumed : L.declared.queue s notifications_queue []

  has_bound : (q e : String) → Lasts L (λ s. L.declared.bound s q "" e)
  has_bound q e s s' kept h = kept.bound q "" e h

  abbrev Last2 : S → Type 0
  Last2 s =
      L.declared.bound s wait_queue "" wait_exchange
      × L.declared.bound s retry_queue "" retry_exchange

  abbrev Last3 : S → Type 0
  Last3 s = L.declared.bound s notifications_queue "" notifications_exchange × Last2 s

  abbrev Last4 : S → Type 0
  Last4 s = L.declared.queue s retry_queue retry_queue_args × Last3 s

  abbrev Last5 : S → Type 0
  Last5 s = L.declared.queue s wait_queue wait_queue_args × Last4 s

  abbrev Last6 : S → Type 0
  Last6 s = L.declared.queue s notifications_queue [] × Last5 s

  abbrev All : S → Type 0
  All s = Exchanges exchanges_to_declare s × Last6 s

  sets_up : Brings L All (setup_topology ch)
  unfolding setup_topology
  sets_up =
      bring_then L (Exchanges exchanges_to_declare) Last6
        (declare_exchanges ch exchanges_to_declare) _ (Exchanges-Lasts exchanges_to_declare)
        (declares exchanges_to_declare)
        (bring_then L (λ s. L.declared.queue s notifications_queue []) Last5 _ _
          (has_queue notifications_queue []) (declares_queue notifications_queue [])
          (bring_then L (λ s. L.declared.queue s wait_queue wait_queue_args) Last4 _ _
            (has_queue wait_queue wait_queue_args) (declares_queue wait_queue wait_queue_args)
            (bring_then L (λ s. L.declared.queue s retry_queue retry_queue_args) Last3 _ _
              (has_queue retry_queue retry_queue_args) (declares_queue retry_queue retry_queue_args)
              (bring_then L (λ s. L.declared.bound s notifications_queue "" notifications_exchange)
                Last2 _ _ (has_bound notifications_queue notifications_exchange)
                (binds notifications_queue notifications_exchange)
                (bring_then L (λ s. L.declared.bound s wait_queue "" wait_exchange)
                  (λ s. L.declared.bound s retry_queue "" retry_exchange) _ _
                  (has_bound wait_queue wait_exchange) (binds wait_queue wait_exchange)
                  (binds retry_queue retry_exchange))))))

  wait-Leads : (s : S) → All s → Leads wait_exchange s
  wait-Leads s ((first, (waits, _)), (process, (wait, (_, (main, (bound, _)))))) = record {
    waits = wait_queue;
    dead_letters = notifications_exchange;
    published = waits;
    bound = bound;
    declared = wait;
    expired = first;
    returns = main;
    consumed = process;
  }

  retry-Leads : (s : S) → All s → Leads retry_exchange s
  retry-Leads s ((first, (_, (retries, _))), (process, (_, (retry, (main, (_, bound)))))) = record {
    waits = retry_queue;
    dead_letters = notifications_exchange;
    published = retries;
    bound = bound;
    declared = retry;
    expired = first;
    returns = main;
    consumed = process;
  }

  -- Over a broker that keeps its contract, where the constructor of the queue succeeds, a message
  -- that is published to the wait exchange or to the retry exchange with an empty key reaches a
  -- queue whose expired messages go to an exchange that leads to the queue of the workers; and
  -- however it ends, nothing that was declared is lost.
  pub topology-Leads :
      (open_channel : Action S ⊤)
      → ((s : S)
          → Ensures {A = ⊤}
              (λ _ s'. Keeps L.declared s s')
              (λ _ s'. Keeps L.declared s s')
              (open_channel s))
      → (s : S)
      → Ensures {A = Channel S}
          (λ _ s'. Leads wait_exchange s' × Leads retry_exchange s' × Keeps L.declared s s')
          (λ _ s'. Keeps L.declared s s')
          (new_rabbitmq_queue open_channel ch s)
  unfolding new_rabbitmq_queue
  topology-Leads open_channel opens s = go (open_channel s) (opens s)
    where
      done :
          (s1 : S) (y : Result ⊤ × S)
          → Kept L s s1
          → Ensures {A = ⊤} (λ _ s'. All s' × Kept L s1 s') (λ _ s'. Kept L s1 s') y
          → Ensures {A = Channel S}
              (λ _ s'. Leads wait_exchange s' × Leads retry_exchange s' × Keeps L.declared s s')
              (λ _ s'. Keeps L.declared s s')
              ((on_error (wrap "storage: rabbitMQ: New: Failed to setup topology") (λ _. y)
                  >> pure ch)
                s1)
      done s1 (ok u, s2) kept (all, kept') =
          (wait-Leads s2 all, retry-Leads s2 all, Kept-trans L kept kept')
      done s1 (err e, s2) kept kept' = Kept-trans L kept kept'

      go :
          (x : Result ⊤ × S)
          → Ensures {A = ⊤} (λ _ s'. Kept L s s') (λ _ s'. Kept L s s') x
          → Ensures {A = Channel S}
              (λ _ s'. Leads wait_exchange s' × Leads retry_exchange s' × Keeps L.declared s s')
              (λ _ s'. Keeps L.declared s s')
              ((on_error (wrap "storage: rabbitMQ: New: Failed to open a channel") (λ _. x)
                  >> (on_error
                        (wrap "storage: rabbitMQ: New: Failed to setup topology")
                        (setup_topology ch)
                      >> pure ch))
                s)
      go (ok u, s1) kept = done s1 (setup_topology ch s1) kept (sets_up s1)
      go (err e, s1) kept = kept

-- ===== src/Lib.antt =====
-- A model of delayed-notifier: an HTTP API that accepts notifications to be sent later by mail or
-- Telegram, a PostgreSQL table with a Redis cache in front of it, a RabbitMQ queue whose messages
-- expire at the scheduled time, and workers that send what the queue delivers.
--
-- An operation is an `Action` (Go/Action): it takes the state of the services that it calls to a
-- result and a new state, and what it wrote before an error stays written. The services themselves
-- are records of operations, as the interfaces of the program are (Domain/Ports); what they promise
-- is Domain/Contract: a repository is a map from ids to notifications with `save_law`, `get_law`,
-- `update_law` and `delete_law`, a cache may lose entries at any time.
--
-- Which file models what:
--   Prelude           Boolean tests, signed integers, Go's int64 and int16 with their wrap-around
--   Go                errors and errors.Is, times and durations, strconv.FormatInt and ParseInt
--   Domain            internal/domain: the model, the interfaces and their contracts; Status is the
--                     life of a notification as a relation between two states of its entry
--   Postgres          internal/storage/postgres and migrations: the statements as steps on a table
--                     (Sql), the mappers (Mapping), the methods (Repository), the column types
--                     (Scan), the constructor of the pool (Pool)
--   Redis             internal/storage/redis and pkg/keybuilder: the cache (Cache) and the
--                     repository that caches (Cached)
--   Rabbit            internal/storage/rabbitmq: the topology, the constructor and Close
--                     (Publisher), Publish and PublishRetry (Queue), and when what they publish
--                     leaves the wait queue (Timing, Waiting) and the retry queue (RetryWait)
--   Notifiers         internal/notifiers: the three notifiers (Channels) and their Dispatcher
--   Config            internal/config: the records and NewConfig
--   Logger            internal/logger: NewLogger
--   Service           internal/service: CreateNotification, GetNotificationByID,
--                     UpdateNotification, CancelNotification
--   Consumer          internal/consumer: handleMessage and handleSendError (Handler),
--                     calculateExponentialBackoff (Backoff), runWorker (Worker), Start as a pool of
--                     goroutines (Pool) and with what they do, cut at their calls (Stages, Start),
--                     the constructor (New)
--   Http              internal/delivery/http: the three handlers and their replies, the routes
--                     (Routes) and the server (Server)
--   System            the API and the workers over one store, one call after another
--   Sends             the same with a log of the sends
--   Mail              the same with the ids of the messages that the broker holds
--   Threads           the goroutines of the two processes, each where it stands between two calls of
--                     the store, the queue, the notifier and the broker's acknowledgement, in any
--                     order; a process may crash, and the broker lose a message, at any point
--   Delivery          from a request to what the notifiers hand out
--   Interleaved       the same calls cut at their queries, in any order
--   Stack             the table, the cache and Redis under the API and the workers; Parts is the
--                     same cut at its queries, over any cache
--   App               internal/app: the modules of the two processes as data, and their hooks
--   Tests             the theorems at concrete inputs
--
-- Parameters of the model: the JSON codec of encoding/json, uuid.UUID.String, mail.ParseAddress,
-- the AMQP connection and channel, zerolog, viper, pgxpool, the Redis client, the SMTP dialer, the bot API,
-- the clock and the random ids. Redis/Client, Rabbit/Broker, Rabbit/Waiting and Config/Default
-- state what is relied on of Redis, RabbitMQ and viper. The server's failures are a schedule in the
-- state of the table; they leave the table as it was.
--
-- Fuel: `format_from` writes one digit in each round and is given n + 1 rounds for n, which has no
-- more digits than that. Everything else is structural recursion.
--
-- Not modelled: what is logged; internal/storage/postgres/db/db.go, which is generated plumbing;
-- what gin and net/http do with a request before it reaches a handler; what uber/fx does with the
-- modules and hooks, in the mains; the broker's own queues, but for the expiry of Rabbit/Waiting (a
-- worker's events come in any order, and Mail says of a message only whether the broker still holds
-- it; a publication that was taken but that the broker has not confirmed counts as held in Mail, and
-- may be lost in Threads); the partitions of the table, and commits whose answer is lost. System and
-- Stack run one call after another; Start cuts handleMessage at its calls (Consumer/Stages), and
-- Interleaved cuts the calls at their queries and lets each go on from what it read
-- earlier, which covers stale reads; Service/Race looks at a cancellation with a change in between.
-- A call of the caching repository, which is one query of the table and one or two of the cache, is
-- one step, but in Stack/Parts, where the cache may turn into any other between the parts, which
-- covers a call that goes on with its cache after others have run. The contract of a caching
-- repository is for a cache whose deletions do not fail; Redis/Stale is about one where a deletion
-- fails.
pub mod Prelude
pub mod Go
pub mod Domain
pub mod Postgres
pub mod Redis
pub mod Rabbit
pub mod Config
pub mod Logger
pub mod Notifiers
pub mod Service
pub mod Consumer
pub mod Http
pub mod System
pub mod Sends
pub mod Mail
pub mod Threads
pub mod Delivery
pub mod Interleaved
pub mod Stack
pub mod App
pub mod Tests

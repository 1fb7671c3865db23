-- ===== src/Rabbit.antt =====
-- internal/storage/rabbitmq/queue.go: the topology that the publisher declares, and publishing.
pub mod Channel
pub mod Topology
pub mod Queue
pub mod Timing
pub mod Waiting
pub mod Retries
pub mod RetryWait
pub mod Broker
pub mod Brings
pub mod Routes
pub mod Publisher
pub mod Connect

-- ===== src/Consumer.antt =====
-- internal/consumer/consumer.go.
pub mod Backoff
pub mod Handler
pub mod Ending
pub mod Retry
pub mod Settlement
pub mod Transitions
pub mod Paths
pub mod Recorded
pub mod Retried
pub mod Answer
pub mod InFive
pub mod NotLost
pub mod Worker
pub mod Receives
pub mod Pool
pub mod PoolInvariant
pub mod Stages
pub mod Start
pub mod New
pub mod StartRuns
pub mod Ahead
pub mod StartStops

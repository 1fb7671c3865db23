-- ===== src/Tests.antt =====
-- The theorems at concrete inputs: a small table, one-slot services, a codec of two messages.
mod Data
mod Services
mod Life
mod Workers
mod Storage
mod Api
mod Edges
mod Sent
mod Stacked
mod Loops
mod Setup
mod AnyCache
mod Waits
mod RetryWaits
mod Wired
mod Held
mod Racing
mod InFive

-- ===== src/Postgres.antt =====
-- internal/storage/postgres: the generated queries (db), the mappers between rows and notifications,
-- and the repository.
pub mod Rows
pub mod Sql
pub mod Mapping
pub mod Repository
pub mod Table
pub mod Answers
pub mod Insert
pub mod Views
pub mod Lawful
pub mod Invariant
pub mod Scan
pub mod Scanned
pub mod Pool
pub mod PoolLimits

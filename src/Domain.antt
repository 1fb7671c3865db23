-- ===== src/Domain.antt =====
-- internal/domain: the notification and its factories (domain/model), and the contracts of the
-- services that the core depends on (domain/repository).
pub mod Model
pub mod Ports
pub mod Json
pub mod Contract
pub mod Status

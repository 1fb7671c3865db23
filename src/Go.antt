-- ===== src/Go.antt =====
-- What the modules use of the Go language and its standard library.
pub mod Errors
pub mod Action
pub mod Clock
pub mod Decimal

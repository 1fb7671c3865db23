-- ===== src/App.antt =====
-- internal/app and cmd: how the two processes are put together.
pub mod Lifecycle
pub mod Hooks
pub mod Modules
pub mod DryRun
pub mod Unwired

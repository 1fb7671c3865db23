-- ===== src/Notifiers.antt =====
-- internal/notifiers: the channel-specific notifiers and the dispatcher.
pub mod Channels
pub mod Dispatcher
pub mod Routing
pub mod Unset

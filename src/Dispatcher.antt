-- ===== src/Dispatcher.antt =====
-- internal/dispatcher: consumers, deliveries, deletions and expiry.
pub mod Hub
pub mod Deleter
pub mod Expiry
pub mod Janitor
pub mod Dispatch
pub mod Loop

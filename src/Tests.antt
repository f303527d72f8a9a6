-- ===== src/Tests.antt =====
-- Runs of the model at concrete inputs, and instances of its theorems.
pub mod Message
pub mod Reconcile
pub mod History
pub mod Live
pub mod Outbox
pub mod Lanes
pub mod Unread
pub mod Priority
pub mod Media
pub mod Lists
pub mod Calls
pub mod Notified
pub mod Routes
pub mod Socket
pub mod Viewport

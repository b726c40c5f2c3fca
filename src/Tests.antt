-- ===== src/Tests.antt =====
-- Applications of the theorems at concrete bitmaps, devices and messages.
pub mod Tracking
pub mod Control
pub mod Daemons
pub mod Between
pub mod Resumed
pub mod Clients
pub mod Agreement
pub mod Stored
pub mod Accepted
pub mod Sources

-- ===== src/User.antt =====
-- The daemons, user/atdr_linux.
pub mod Types
pub mod Posix
pub mod IoEngine
pub mod Resync
pub mod ServerBitmap
pub mod Server
pub mod Client
pub mod Database

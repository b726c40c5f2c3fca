-- ===== src/Kernel.antt =====
-- The kernel module (kernel/atdr_linux).
pub mod Bitmap
pub mod Tracking
pub mod Device

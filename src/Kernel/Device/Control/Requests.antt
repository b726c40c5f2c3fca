-- ===== src/Kernel/Device/Control/Requests.antt =====
-- The requests of kernel/atdr_linux/atdr_main.c, one by one, and the tables of the module.
use greko.Kernel.Bitmap.{Bitmap}
use greko.Kernel.Device.{Kernel}

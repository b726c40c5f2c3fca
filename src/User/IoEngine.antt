-- ===== src/User/IoEngine.antt =====
-- The I/O engines, atdr_io_engine_client.c and atdr_io_engine_server.c: reading and writing a
-- buffer at a sector of a disk, or over the connection.
pub mod Calls
use greko.Base.{ℕ, ◌*◌, ◌%◌, ◌^◌, Bool, true, false, ◌||◌, not, if◌then◌else◌}
use greko.User.Types.{Bytes, sector_bytes}
use greko.User.Posix.{Posix, Packet, bytes}

-- The byte offset of a sector, an `unsigned long` product.
abbrev pub loffset : ℕ → ℕ
loffset start_lba = start_lba * sector_bytes % 2 ^ 64

module _ {W : Type 0} (ops : Posix W) where
  -- `chunk_read_client`: errno is tested even if the call succeeded.
  unfoldable pub chunk_read_client : ℕ → Bytes → ℕ → W → Bool × Bytes × W
  chunk_read_client fd buff size w =
      let (ok, b, w1) = ops.recv fd buff size w in
      if not ok || ops.timed_out w1 then (false, b, w1) else (true, b, w1)

  -- `chunk_write_client`, of which posix_fadvise is left out.
  unfoldable pub chunk_write_client : ℕ → Bytes → ℕ → ℕ → W → Bool × W
  chunk_write_client fd buff size start_lba w =
      let (found, w1) = ops.lseek fd (loffset start_lba) w in
      let (ok, w2) = ops.write fd buff size w1 in if found then (ok, w2) else (false, w1)

  pub chunk_read_server : ℕ → Bytes → ℕ → ℕ → W → Bool × Bytes × W
  chunk_read_server fd buff size start_lba w =
      let (found, w1) = ops.lseek fd (loffset start_lba) w in
      let (ok, b, w2) = ops.read fd buff size w1 in if found then (ok, b, w2) else (false, buff, w1)

  abbrev pub chunk_write_server : ℕ → Bytes → ℕ → W → Bool × W
  chunk_write_server fd buff size w = ops.send fd (bytes size buff) w

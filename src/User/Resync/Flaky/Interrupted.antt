-- ===== src/User/Resync/Flaky/Interrupted.antt =====
-- A resynchronisation over calls that may fail, and with pauses, up to where it stops.
use greko.Base.{ℕ, ◌*◌, ◌%◌, ◌^◌, ◌≤◌, ◌<◌, ◌≡◌, Option}
use greko.Memory.{Memory}
use greko.User.Types.{Bytes, RepMode}
use greko.User.Posix.{Posix}
use greko.User.Resync.{Client, Ending}
use greko.User.Resync.Result.{grain_bytes}
use greko.User.Resync.Flaky.{Flaky}
use greko.User.Resync.Flaky.Chunks.{Ready}
use greko.User.Resync.Flaky.Grains.{Partial}

module _ {W : Type 0} (ops : Posix W) (pid sock disk : ℕ) (source : Bytes) (gs capacity : ℕ)
    (target : W → Bytes) (net : Flaky ops sock disk source gs 8 capacity target)
    (small : capacity < 2 ^ 63) (old : Bytes) (mode : RepMode) (area : Memory) (len : ℕ)
    (whole : gs % 8 ≡ 0) (int : gs < 2 ^ 31) (fits : len * grain_bytes gs ≤ capacity) where
  abbrev Has : ℕ → Bytes → Type 0
  Has done t = Partial source old gs mode area len done t

  abbrev Open : Client → Type 0
  Open c = Ready ops pid sock disk source gs capacity target net small area c

  -- Where a run stops: the last grain that the client remembers.
  abbrev Stopped : Option Ending × Client × W → Type 0
  Stopped r = Has r.1.last_resynced_bit (target r.2) × (r.1.last_resynced_bit ≤ len)

  -- The client that a run starts with.
  pub record Starts (bit : ℕ) (c : Client) : Type 0 where
    pub open_ : Open c
    pub size : c.bitmap_size * 8 ≡ len
    pub start : bit ≤ len
    pub last : c.last_resynced_bit ≤ bit

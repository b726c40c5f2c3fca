-- ===== src/User/Resync/Flaky/Resumed.antt =====
-- Resynchronisations that stop, are taken up again at the grain that the client remembers, and finish
-- at last.
use greko.Base.{ℕ, ◌*◌, ◌%◌, ◌^◌, ◌≤◌, ◌<◌, ◌≡◌, ◌≢◌}
use greko.Memory.{Memory}
use greko.User.Types.{Bytes, RepMode}
use greko.User.Posix.{Posix}
use greko.User.Resync.{Client, Ending, restart_resync}
use greko.User.Resync.Reliable.{Reliable}
use greko.User.Resync.Result.{grain_bytes}
use greko.User.Resync.Flaky.{Flaky}
use greko.User.Resync.Flaky.Interrupted.{Starts}

module _ {W : Type 0} (pid : ℕ) (source : Bytes) (gs capacity : ℕ) (target : W → Bytes)
    (small : capacity < 2 ^ 63) (old : Bytes) (mode : RepMode) (area : Memory) (len : ℕ)
    (whole : gs % 8 ≡ 0) (int : gs < 2 ^ 31) (fits : len * grain_bytes gs ≤ capacity) where
  -- Runs that did not finish, each from the grain that the client remembered after the one before,
  -- with the grain that it remembers after the last. Between two runs the connection, the disk's
  -- descriptor and the world change, but not the bytes of the target.
  pub data Attempts : ℕ → W → Type 1 where
    start : (w : W) → target w ≡ old → Attempts 0 w
    attempt :
        {bit : ℕ} {w : W} (done : ℕ) (w1 w' : W) (ops : Posix W) (sock disk : ℕ)
        (net : Flaky ops sock disk source gs 8 capacity target) (c c' : Client) (buff : Bytes)
        (e : Ending)
        → Attempts bit w
        → target w1 ≡ target w
        → net.Up w1
        → Starts ops pid sock disk source gs capacity target net small old mode area len whole int
            fits bit c
        → restart_resync ops pid bit mode buff c w1 ≡ (e, c', w')
        → e ≢ Ending.finished
        → done ≡ c'.last_resynced_bit
        → Attempts done w'

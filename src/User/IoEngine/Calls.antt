-- ===== src/User/IoEngine/Calls.antt =====
-- What the engines do when the calls below them succeed.
use greko.Base.{ℕ, ◌≡◌, refl, Bool, true, false, ◌||◌, not, arith, if_holds}
use mathlib.Core.Path.{subst}
use greko.User.Types.{Bytes}
use greko.User.Posix.{Posix}
use greko.User.IoEngine.{loffset, chunk_read_client, chunk_write_client, chunk_read_server}

module _ {W : Type 0} (ops : Posix W) where
  pub chunk_read_client-recv :
      (fd size : ℕ) (b : Bytes) (w : W)
      → (ops.recv fd b size w).0 ≡ true
      → ops.timed_out (ops.recv fd b size w).2 ≡ false
      → chunk_read_client ops fd b size w
        ≡ (true, (ops.recv fd b size w).1, (ops.recv fd b size w).2)
  unfolding chunk_read_client
  chunk_read_client-recv fd size b w ok late = rw (ok, late) refl

  pub chunk_write_client-write :
      (fd size lba : ℕ) (b : Bytes) (w : W)
      → let (found, w1) = ops.lseek fd (loffset lba) w in
        found ≡ true
        → (ops.write fd b size w1).0 ≡ true
        → chunk_write_client ops fd b size lba w ≡ (true, (ops.write fd b size w1).1)
  unfolding chunk_write_client
  chunk_write_client-write fd size lba b w found ok = rw (found, ok) refl

  pub chunk_read_server-read :
      (fd size lba : ℕ) (b : Bytes) (w : W)
      → let (found, w1) = ops.lseek fd (loffset lba) w in
        found ≡ true
        → (ops.read fd b size w1).0 ≡ true
        → chunk_read_server ops fd b size lba w
          ≡ (true, (ops.read fd b size w1).1, (ops.read fd b size w1).2)
  unfolding chunk_read_server
  chunk_read_server-read fd size lba b w found ok = rw (found, ok) refl

  -- The same, at an offset that is known otherwise.
  pub chunk_read_server-at :
      (fd size lba o : ℕ) (b : Bytes) (w : W)
      → loffset lba ≡ o
      → let (found, w1) = ops.lseek fd o w in
        found ≡ true
        → (ops.read fd b size w1).0 ≡ true
        → chunk_read_server ops fd b size lba w
          ≡ (true, (ops.read fd b size w1).1, (ops.read fd b size w1).2)
  chunk_read_server-at fd size lba o b w e =
      subst
        (λ o.
          (ops.lseek fd o w).0 ≡ true
          → (ops.read fd b size (ops.lseek fd o w).1).0 ≡ true
          → chunk_read_server ops fd b size lba w ≡ (
            true,
            (ops.read fd b size (ops.lseek fd o w).1).1,
            (ops.read fd b size (ops.lseek fd o w).1).2,
          ))
        e (chunk_read_server-read fd size lba b w)

module _ {W : Type 0} (ops : Posix W) where
  -- What holds of the engine's result, whether its calls succeed or fail.
  pub chunk_read_client-holds :
      (P : Bool × Bytes × W → Type 0) (fd size : ℕ) (b : Bytes) (w : W)
      → let (ok, b1, w1) = ops.recv fd b size w in
        (ok ≡ true → ops.timed_out w1 ≡ false → P (true, b1, w1))
        → P (false, b1, w1)
        → P (chunk_read_client ops fd b size w)
  unfolding chunk_read_client
  chunk_read_client-holds P fd size b w good bad =
      let (ok, b1, w1) = ops.recv fd b size w in
      if_holds P (not ok || ops.timed_out w1) (false, b1, w1) (true, b1, w1) (λ e. bad)
        (λ e. good (both ok (ops.timed_out w1) e).0 (both ok (ops.timed_out w1) e).1)
    where
      both : (x y : Bool) → (not x || y) ≡ false → (x ≡ true) × (y ≡ false)
      both x y e = ground arith

  pub chunk_write_client-holds :
      (P : Bool × W → Type 0) (fd size lba : ℕ) (b : Bytes) (w : W)
      → let (found, w1) = ops.lseek fd (loffset lba) w in
        (found ≡ true → P (ops.write fd b size w1))
        → P (false, w1)
        → P (chunk_write_client ops fd b size lba w)
  unfolding chunk_write_client
  chunk_write_client-holds P fd size lba b w good bad =
      let (found, w1) = ops.lseek fd (loffset lba) w in
      if_holds P found (ops.write fd b size w1) (false, w1) good (λ e. bad)

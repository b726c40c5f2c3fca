-- ===== src/User/Posix.antt =====
-- What the daemons call of POSIX, as an interface on a state `W` of the world; its implementation
-- is not part of the repository.
use greko.Base.{ℕ, Bool}
use greko.User.Types.{Bytes, Header}

-- What goes over a socket: a header, or the first bytes of a buffer.
pub data Packet : Type 0 where
  header : Header → Packet
  bytes : ℕ → Bytes → Packet

-- A Boolean result is false where C's is negative. The arguments of each call are in C's order, a
-- buffer that a call fills is returned.
pub record Posix (W : Type 0) : Type 0 where
  pub lseek : ℕ → ℕ → W → Bool × W
  pub read : ℕ → Bytes → ℕ → W → Bool × Bytes × W
  pub write : ℕ → Bytes → ℕ → W → Bool × W
  pub send : ℕ → Packet → W → Bool × W
  pub recv : ℕ → Bytes → ℕ → W → Bool × Bytes × W
  -- `errno == ETIMEDOUT`
  pub timed_out : W → Bool
  -- `shutdown` and `close` of a socket.
  pub hang_up : ℕ → W → W
  -- Whether another thread stores PARTNER_OBJ_PAUSE before the partner's state is read next.
  pub pauses : W → Bool

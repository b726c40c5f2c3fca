-- ===== src/User/Resync/Flaky.antt =====
-- A connection and a target disk that may fail at any call, and what the transfers of
-- `restart_resync` of user/atdr_linux/atdr_resync.c leave of the disk then.
pub mod Transfer
pub mod Chunks
pub mod Grains
pub mod Interrupted
pub mod Resumed
use greko.Base.{ℕ, ◌+◌, ◌*◌, ◌/◌, ◌≤◌, ◌<◌, ◌≡◌, sym, ap, ◌∙◌, true, false, ◌⊎◌, inl, inr, arith}
use greko.User.Types.{Bytes, Header, Opcode, buf_size_in_bytes}
use greko.User.Posix.{Posix, Packet, header}
use greko.User.Resync.Reliable.{splice, offset}

-- `t` is `old`, but for bytes from `lo` up to `hi` that are those of the source.
abbrev pub Near : Bytes → Bytes → ℕ → ℕ → Bytes → Type 0
Near source old lo hi t = (x : ℕ) → (t x ≡ old x) ⊎ ((lo ≤ x) × (x < hi) × (t x ≡ source x))

-- The socket `sock` is connected to a server that answers with the bytes of `source`, for the sizes
-- `gs` and `cs`, and `disk` is a target disk of `capacity` bytes. Any call may fail; a `write` that
-- fails may have written some of its bytes. The server does not close its end of the connection and
-- no signal comes while an answer is awaited: recv with MSG_WAITALL then gives the whole buffer or
-- fails. When the server does close its end, recv gives less and chunk_read_client takes that for
-- success.
pub record Flaky {W : Type 0} (ops : Posix W) (sock disk : ℕ) (source : Bytes) (gs cs capacity : ℕ)
    (target : W → Bytes) : Type 1 where
  pub Up : W → Type 0
  pub Sent : ℕ → W → Type 0
  pub Seeked : ℕ → W → Type 0
  pub send_keeps : (p : Packet) (w : W) → target (ops.send sock p w).1 ≡ target w
  pub hang_up_keeps : (w : W) → target (ops.hang_up sock w) ≡ target w
  pub recv_keeps : (b : Bytes) (w : W) → target (ops.recv sock b buf_size_in_bytes w).2 ≡ target w
  pub lseek_keeps : (o : ℕ) (w : W) → target (ops.lseek disk o w).1 ≡ target w
  pub send_request :
      (h : Header) (w : W)
      → Up w
      → h.opcode ≡ Opcode.data_op
      → (ops.send sock (header h) w).0 ≡ true
      → Sent (offset gs cs h.curr_pos h.chunk_pos) (ops.send sock (header h) w).1
  pub recv_answer :
      (o : ℕ) (b : Bytes) (w : W)
      → Sent o w
      → let (ok, b1, w1) = ops.recv sock b buf_size_in_bytes w in
        ok ≡ true
        → ops.timed_out w1 ≡ false
        → ((i : ℕ) → i < buf_size_in_bytes → b1 i ≡ source (o + i)) × Up w1
  pub seek_target :
      (o : ℕ) (w : W) → Up w → (ops.lseek disk o w).0 ≡ true → Seeked o (ops.lseek disk o w).1
  pub write_target :
      (o : ℕ) (b : Bytes) (w : W)
      → Seeked o w
      → o + buf_size_in_bytes ≤ capacity
      → let (ok, w1) = ops.write disk b buf_size_in_bytes w in
        (ok ≡ true → (target w1 ≡ splice o buf_size_in_bytes b (target w)) × Up w1)
        × ((x : ℕ)
            → (target w1 x ≡ target w x)
              ⊎ (target w1 x ≡ splice o buf_size_in_bytes b (target w) x))

pub Near-refl : (source old : Bytes) (lo hi : ℕ) → Near source old lo hi old
Near-refl source old lo hi x = inl (λ i. old x)

pub Near-same :
    (source old t u : Bytes) (lo hi : ℕ) → u ≡ t → Near source old lo hi t → Near source old lo hi u
Near-same source old t u lo hi e h x = rw e (h x)

pub Near-trans :
    (source old t u : Bytes) (lo hi lo' hi' : ℕ)
    → lo ≤ lo'
    → hi' ≤ hi
    → Near source old lo hi t
    → Near source t lo' hi' u
    → Near source old lo hi u
Near-trans source old t u lo hi lo' hi' a b h k x = elim (k x) [
  | inl e ↦ elim (h x) [ inl f ↦ inl (e ∙ f) | inr (p, q, f) ↦ inr (p, q, e ∙ f) ]
  | inr (p, q, f) ↦ inr (omega arith, omega arith, f)
]

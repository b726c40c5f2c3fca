-- ===== src/User/Resync/Reliable.antt =====
-- A connection and a target disk that work, as a resynchronisation relies on them, and what the
-- target disk holds after its transfers.
use greko.Base.{
  ℕ, ◌+◌, ◌-◌, ◌*◌, ◌/◌, ◌≤◌, ◌<◌, ◌≡◌, fun_ext, Bool, true, false, ◌&&◌, ◌||◌, ltb, leb,
  if◌then◌else◌, arith,
}
use greko.Base.Loops.{for_range}
use greko.User.Types.{Bytes, Header, Opcode, RepMode, buf_size_in_bytes, sector_bytes}
use greko.Memory.{Memory}
use greko.User.Resync.{test_bit}
use greko.User.Posix.{Posix, header}

-- `write` of the first `n` bytes of `b` at the offset `o`.
abbrev pub splice : ℕ → ℕ → Bytes → Bytes → Bytes
splice o n b t x = if leb o x && ltb x (o + n) then b (x - o) else t x

-- The bytes from `lo` up to `hi` become those of `source`.
abbrev pub replace : Bytes → ℕ → ℕ → Bytes → Bytes
replace source lo hi t x = if leb lo x && ltb x hi then source x else t x

pub splice-replace :
    (source b t : Bytes) (o n : ℕ)
    → ((i : ℕ) → i < n → b i ≡ source (o + i))
    → splice o n b t ≡ replace source o (o + n) t
splice-replace source b t o n h = fun_ext λ x. at x
  where
    at : (x : ℕ) → splice o n b t x ≡ replace source o (o + n) t x
    at x = grind (arith, h (x - o))

-- The offset of a chunk on both disks.
abbrev pub offset : ℕ → ℕ → ℕ → ℕ → ℕ
offset gs cs bit chunk = (bit * gs + chunk * cs) * sector_bytes

-- The target after `n` chunks of a grain, from `chunk` on.
abbrev pub chunks_replaced : Bytes → ℕ → ℕ → ℕ → ℕ → ℕ → Bytes → Bytes
chunks_replaced source gs cs n chunk bit t =
    for_range n chunk
      (λ j t. replace source (offset gs cs bit j) (offset gs cs bit j + buf_size_in_bytes) t) t

-- Whether a grain is copied.
abbrev pub is_wanted : RepMode → Memory → ℕ → Bool
is_wanted mode area bit = test_bit area bit || elim mode [ RepMode.full_resync ↦ true | _ ↦ false ]

-- The target after one grain, and after `n` grains from `bit` on.
abbrev pub grain_replaced : Bytes → ℕ → ℕ → RepMode → Memory → ℕ → Bytes → Bytes
grain_replaced source gs cs mode area bit t =
    if is_wanted mode area bit then chunks_replaced source gs cs (gs / cs) 0 bit t else t

abbrev pub grains_replaced : Bytes → ℕ → ℕ → RepMode → Memory → ℕ → ℕ → Bytes → Bytes
grains_replaced source gs cs mode area n bit t =
    for_range n bit (grain_replaced source gs cs mode area) t

-- The socket `sock` is connected to a server that answers with the bytes of `source`, for the
-- sizes `gs` and `cs`; `disk` is a target disk of `capacity` bytes.
pub record Reliable {W : Type 0} (ops : Posix W) (sock disk : ℕ) (source : Bytes)
    (gs cs capacity : ℕ) : Type 1 where
  -- Connected, with nothing on the way.
  pub Up : W → Type 0
  -- The answer with the bytes at this offset is on the way.
  pub Sent : ℕ → W → Type 0
  -- The offset at which the disk is written next.
  pub Seeked : ℕ → W → Type 0
  pub target : W → Bytes
  -- No other thread pauses the partner.
  pub calm : (w : W) → ops.pauses w ≡ false
  pub send_request :
      (h : Header) (w : W)
      → Up w
      → h.opcode ≡ Opcode.data_op
      → offset gs cs h.curr_pos h.chunk_pos + buf_size_in_bytes ≤ capacity
      → let (ok, w1) = ops.send sock (header h) w in
        (ok ≡ true) × Sent (offset gs cs h.curr_pos h.chunk_pos) w1 × (target w1 ≡ target w)
  pub recv_answer :
      (o : ℕ) (b : Bytes) (w : W)
      → Sent o w
      → let (ok, b1, w1) = ops.recv sock b buf_size_in_bytes w in
        (ok ≡ true)
        × (ops.timed_out w1 ≡ false)
        × ((i : ℕ) → i < buf_size_in_bytes → b1 i ≡ source (o + i))
        × Up w1
        × (target w1 ≡ target w)
  pub seek_target :
      (o : ℕ) (w : W)
      → Up w
      → o + buf_size_in_bytes ≤ capacity
      → let (ok, w1) = ops.lseek disk o w in
        (ok ≡ true) × Up w1 × Seeked o w1 × (target w1 ≡ target w)
  pub write_target :
      (o : ℕ) (b : Bytes) (w : W)
      → Up w
      → Seeked o w
      → o + buf_size_in_bytes ≤ capacity
      → let (ok, w1) = ops.write disk b buf_size_in_bytes w in
        (ok ≡ true) × Up w1 × (target w1 ≡ splice o buf_size_in_bytes b (target w))
  pub send_termination :
      (h : Header) (w : W)
      → Up w
      → h.opcode ≡ Opcode.rplc_termination
      → target (ops.send sock (header h) w).1 ≡ target w

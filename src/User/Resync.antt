-- ===== src/User/Resync.antt =====
-- The client's resynchronisation, `restart_resync` and `replication_terminate` of atdr_resync.c.
-- The globals are those of one partner id; `unsigned long` arithmetic wraps at 2 ^ 64.
pub mod Reliable
pub mod Transfer
pub mod Grains
pub mod Result
pub mod Complete
pub mod Flaky
use greko.Base.{
  ℕ, zero, suc, ◌+◌, ◌-◌, ◌*◌, ◌/◌, ◌%◌, ◌^◌, Bool, true, false, ◌&&◌, ◌||◌, not, Option, none,
  some, List, [], ◌∷◌, ltb, leb, ◌==◌, if◌then◌else◌,
}
use greko.Memory.{Memory}
use greko.User.Types.{
  Bytes, Header, Opcode, PartnerState, RelationState, ObjectState, IoState, RepState, RepMode,
  buf_size_in_bytes, max_bits_len,
}
use greko.User.Posix.{Posix, Packet, header}
use greko.User.IoEngine.{chunk_read_client, chunk_write_client}

-- The statements that the client sends to its database.
pub data Update : Type 0 where
  insert_into_resync update_into_resync : ℕ → Update
  update_into_partner : PartnerState → Update
  update_resync_state : RepState → Update

-- What the client holds at `pid`.
pub record Client : Type 0 where
  pub hdr : Header
  pub partner : PartnerState
  pub relation : RelationState
  pub disk : ObjectState
  pub io : IoState
  pub conn : ObjectState
  pub rep_state : RepState
  pub last_resynced_bit : ℕ
  pub recovery_mode : Bool
  -- all_partner_clients[pid].socket_fd, none for -1, and the descriptor of the target disk.
  pub socket_fd : Option ℕ
  pub disk_fd : ℕ
  -- The bits of `bitmap_area`, none when it is freed, and `bitmap_size`.
  pub bitmap_area : Option Memory
  pub bitmap_size : ℕ
  pub db : List Update

-- How a run ends: by its return, by `return` in the middle of a transfer, by `pthread_cancel` of
-- the own thread, or by a trap (a failed assertion, a NULL bitmap, a division by zero).
pub data Ending : Type 0 where
  finished abandoned cancelled trapped : Ending

-- `test_bit` of a bitmap: bit `nr & 31` of the 32-bit word `nr >> 5`.
abbrev pub test_bit : Memory → ℕ → Bool
test_bit area nr = area (32 * (nr / 32) + nr % 32)

-- A descriptor as a call takes it; -1 is no descriptor.
abbrev pub descriptor : Option ℕ → ℕ
descriptor none = 2 ^ 32 - 1
descriptor (some fd) = fd

abbrev pub log_update : Update → Client → Client
log_update u c = record c { db = u ∷ c.db }

module _ {W : Type 0} (ops : Posix W) (pid : ℕ) where
  -- The partner's state, as it is read next.
  abbrev pub observe : Client → W → Client
  observe c w = if ops.pauses w then record c { partner = PartnerState.pause } else c

  abbrev pub is_paused : Client → Bool
  is_paused c = elim c.partner [ PartnerState.pause ↦ true | _ ↦ false ]

  abbrev pub is_released : Client → Bool
  is_released c = elim c.io [ IoState.released ↦ true | _ ↦ false ]

  abbrev pub is_completed : Client → Bool
  is_completed c = elim c.rep_state [ RepState.completed ↦ true | _ ↦ false ]

  -- A transfer that failed: the connection is closed and paused.
  pub disconnect : Client → W → Client × W
  disconnect c w = (
    record c { socket_fd = none; conn = ObjectState.pause },
    ops.hang_up (descriptor c.socket_fd) w,
  )

  -- The request for one chunk.
  abbrev pub request : ℕ → ℕ → Client → Client
  request bit_pos chunk_id c = record c {
    hdr = record c.hdr {
      curr_pos = bit_pos;
      chunk_pos = chunk_id;
      partner_id = pid;
      opcode = Opcode.data_op;
    };
  }

  abbrev pub chunk_lba : Header → ℕ → ℕ → ℕ
  chunk_lba h bit_pos chunk_id = (bit_pos * h.grain_size + chunk_id * h.chunk_size) % 2 ^ 64

  -- The answer to a request that was sent, and its writing to the target disk; `buff` is the
  -- buffer of the whole resynchronisation.
  pub fetch_chunk : ℕ → ℕ → Client → Bytes → W → Option Ending × Client × Bytes × W
  unfolding disconnect
  fetch_chunk bit_pos chunk_id c buff w =
      let start_lba = chunk_lba c.hdr bit_pos chunk_id in
      let (ok, b, w1) = chunk_read_client ops (descriptor c.socket_fd) buff buf_size_in_bytes w in
      let (wrote, w2) = chunk_write_client ops c.disk_fd b buf_size_in_bytes start_lba w1 in
      let (c', w') = disconnect c w1 in
      if ok
      then (if wrote
          then (none, c, b, w2)
          else (some cancelled, record c { disk = ObjectState.pause }, b, w2))
      else (some abandoned, c', b, w')

  -- The chunks `chunk_id`, ... of a grain, `n` of them; a pause leaves the loop.
  pub copy_chunks : ℕ → ℕ → ℕ → Client → Bytes → W → Option Ending × Client × Bytes × W
  unfolding fetch_chunk disconnect
  copy_chunks zero chunk_id bit_pos c buff w = (none, c, buff, w)
  copy_chunks (suc n) chunk_id bit_pos c0 buff w =
      let c = observe (request bit_pos chunk_id c0) w in
      let (sent, w1) = ops.send (descriptor c.socket_fd) (header c.hdr) w in
      let (end, c2, b, w2) = fetch_chunk bit_pos chunk_id c buff w1 in
      let rest = copy_chunks n (suc chunk_id) bit_pos c2 b w2 in
      let (c', w') = disconnect c w1 in
      if is_paused c
      then (none, c, buff, w)
      else (if is_released c
          then (some abandoned, c, buff, w)
          else (if sent
              then elim end [ none ↦ rest | some e ↦ (some e, c2, b, w2) ]
              else (some abandoned, c', buff, w')))

  -- `total_iterations` is an `int`, compared as an `unsigned long`.
  abbrev pub total_iterations : Header → ℕ
  total_iterations h =
      let y = h.grain_size / h.chunk_size % 2 ^ 32 in
      if ltb y (2 ^ 31) then y else y + (2 ^ 64 - 2 ^ 32)

  -- One grain: its chunks if its bit is set, or all are wanted.
  pub copy_grain : RepMode → ℕ → Memory → Client → Bytes → W → Option Ending × Client × Bytes × W
  unfolding copy_chunks
  copy_grain mode bit_pos area c buff w =
      let wanted = test_bit area bit_pos || elim mode [ RepMode.full_resync ↦ true | _ ↦ false ] in
      let (end, c1, b, w1) = copy_chunks (total_iterations c.hdr) 0 bit_pos c buff w in
      if wanted
      then elim end [
        | none ↦ (
          none,
          record c1 { db = update_into_resync bit_pos ∷ c1.db; last_resynced_bit = bit_pos },
          b,
          w1,
        )
        | some e ↦ (some e, c1, b, w1)
      ]
      else (none, record c { last_resynced_bit = bit_pos }, buff, w)

  -- The `n` grains from `bit_pos` on.
  pub copy_grains : RepMode → ℕ → ℕ → Client → Bytes → W → Option Ending × Client × W
  unfolding copy_grain
  copy_grains mode zero bit_pos c buff w = (none, c, w)
  copy_grains mode (suc n) bit_pos c0 buff w =
      let c = observe c0 w in
      let area : Memory = elim c.bitmap_area [ none ↦ λ i. false | some m ↦ m ] in
      let (end, c1, b, w1) = copy_grain mode bit_pos area c buff w in
      let rest = copy_grains mode n (suc bit_pos) c1 b w1 in
      if is_paused c
      then (none, c, w)
      else (if ltb bit_pos max_bits_len && elim c.bitmap_area [ none ↦ false | some _ ↦ true ]
          then elim end [ none ↦ rest | some e ↦ (some e, c1, w1) ]
          else (some trapped, c, w))

  -- `replication_terminate`; what the send returns is not looked at.
  pub replication_terminate : Client → W → Client × W
  replication_terminate c0 w =
      if is_completed c0
      then (c0, w)
      else (let h : Header = record c0.hdr { opcode = Opcode.rplc_termination } in
          let last = if is_paused c0 then c0.last_resynced_bit else 0 in
          let (sent, w1) = ops.send (descriptor c0.socket_fd) (header h) w in
          (
            record c0 {
              hdr = h;
              last_resynced_bit = last;
              partner = PartnerState.released;
              relation = RelationState.released;
              disk = ObjectState.released;
              io = IoState.released;
              rep_state = RepState.completed;
              bitmap_area = none;
              db =
                  update_resync_state RepState.completed
                  ∷ update_into_partner PartnerState.released
                  ∷ c0.db;
            },
            w1,
          ))

  -- What is done before the first grain.
  pub begin_resync : ℕ → Client → Client
  begin_resync bit_pos c0 =
      let c : Client = record c0 { hdr = record c0.hdr { opcode = Opcode.data_op } } in
      if c.recovery_mode
      then record c { recovery_mode = false }
      else (if bit_pos == 0
          then record c { db = insert_into_resync bit_pos ∷ c.db; rep_state = RepState.in_progress }
          else c)

  -- `buff` is what the uninitialised buffer holds.
  unfoldable pub restart_resync : ℕ → RepMode → Bytes → Client → W → Ending × Client × W
  unfolding begin_resync copy_grains replication_terminate
  restart_resync bit_pos mode buff c0 w =
      let c1 = begin_resync bit_pos c0 in
      let (end, c2, w2) = copy_grains mode (c1.bitmap_size * 8 - bit_pos) bit_pos c1 buff w in
      let c3 = observe c2 w2 in
      let (c4, w4) = replication_terminate c3 w2 in
      if c0.hdr.chunk_size == 0 then (trapped, c0, w) else elim end [
        | some e ↦ (e, c2, w2)
        | none ↦ if is_paused c3 then (cancelled, c3, w2) else (finished, c4, w4)
      ]

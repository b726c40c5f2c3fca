-- ===== src/User/Server/Handlers.antt =====
-- The handlers that receive or send: get_bitmap, get_data, syn_received and data_req, and the
-- dispatch of atdr_conn_server.c.
pub mod Data
pub mod Lifecycle
pub mod Termination
pub mod Agreement
use greko.Base.{
  ℕ, zero, suc, ◌+◌, ◌-◌, ◌*◌, ◌/◌, ◌%◌, ◌^◌, Bool, true, false, ◌&&◌, ◌||◌, not, Option, none,
  some, List, [], ◌∷◌, ltb, ◌==◌, if◌then◌else◌, update,
}
use greko.Memory.{Memory}
use greko.Kernel.Device.{Kernel, Ioctl, Answers}
use greko.User.Types.{
  Bytes, Header, Opcode, PartnerState, RelationState, ObjectState, IoState, buf_size_in_bytes,
  user_bitmap_size,
}
use greko.User.Posix.{Posix, Packet, header, bytes}
use greko.User.IoEngine.{chunk_read_server, chunk_write_server}
use greko.User.ServerBitmap.{
  UserBitmap, Mapping, Loading, bitmap_server_create, bitmap_server_setup, bitmap_server_destroy,
}
use greko.User.Server.{
  ServerUpdate, insert_into_partner, update_into_partner, update_relation_state, update_disk_state,
  insert_into_relation, Server, Partner, Relation, SourceDisk, Conn, Sizes, max_partners,
  descriptor_of, is_released_partner, make_partner, remove_partner, release_relation, terminate,
}

-- The first lines of `get_bitmap`: a released partner is used again.
pub reuse : ℕ → Server → Server
reuse pid s =
    if is_released_partner (s.partner pid).obj_state
    then record s {
      partner = update s.partner pid (record (s.partner pid) { obj_state = PartnerState.in_use });
      relation =
          update s.relation pid (record (s.relation pid) { obj_state = RelationState.in_use });
      disk = update s.disk pid (record (s.disk pid) { obj_state = ObjectState.in_use });
      db =
          update_disk_state pid ObjectState.in_use
          ∷ update_relation_state pid RelationState.in_use
          ∷ update_into_partner pid PartnerState.in_use
          ∷ s.db;
    }
    else s

-- `get_bitmap` up to the sending: the block of `malloc` and the kernel's two answers are arguments.
pub prepare_bitmap : Option ℕ → Answers → Answers → ℕ → Server → Option Server
unfolding reuse bitmap_server_create
prepare_bitmap block a a' pid s0 =
    let s = reuse pid s0 in
    elim (bitmap_server_create block (s.bitmap pid) s.kernel.memory) [
      | none ↦ none
      | some (b, m) ↦
          let l0 : Loading = record {
            ubitmap = b;
            conn = (s.conn pid).obj_state;
            ioctl_obj = s.ioctl_obj;
            kernel = record s.kernel { memory = m };
          } in
          elim (bitmap_server_setup (s.recovery_mode pid) (s.disk pid).mapping pid a a' l0) [
            | none ↦ none
            | some l ↦ some (record s {
              bitmap = update s.bitmap pid l.ubitmap;
              conn = update s.conn pid (record (s.conn pid) { obj_state = l.conn });
              ioctl_obj = l.ioctl_obj;
              kernel = l.kernel;
            })
          ]
    ]

-- The bytes of a bitmap, as they are sent.
abbrev pub bytes_of : Memory → ℕ → Bytes
bytes_of m a i = byte (λ j. m (8 * (a + i) + j))
  where
    byte : (ℕ → Bool) → ℕ
    byte f =
        (if f 0 then 1 else 0)
        + (if f 1 then 2 else 0)
        + (if f 2 then 4 else 0)
        + (if f 3 then 8 else 0)
        + (if f 4 then 16 else 0)
        + (if f 5 then 32 else 0)
        + (if f 6 then 64 else 0)
        + (if f 7 then 128 else 0)

module _ {W : Type 0} (ops : Posix W) where
  -- `get_bitmap`; the I/O object is only created after a sending that does not fail.
  pub get_bitmap : Option ℕ → Answers → Answers → Header → Server → W → Option (Header × Server × W)
  unfolding prepare_bitmap
  get_bitmap block a a' h s0 w =
      let pid = h.partner_id in
      elim (prepare_bitmap block a a' pid s0) [
        | none ↦ none
        | some s ↦
            let b = s.bitmap pid in
            let p = s.partner pid in
            let (ok, w1) =
              ops.send p.socket_fd (bytes b.bitmap_size (bytes_of s.kernel.memory b.bitmap_area))
                w in
            if s.rep_conn pid
            then (if ok
                then (if ltb pid max_partners
                    then some (h, record s { io = update s.io pid IoState.in_use }, w1)
                    else none)
                else some (h, s, w1))
            else none
      ]

  -- The two ways in which a connection is given up in `get_data`.
  pub pause_disk : ℕ → Server → W → Server × W
  pause_disk pid s w =
      let c = s.conn pid in
      (
        record s {
          disk = update s.disk pid (record (s.disk pid) { obj_state = ObjectState.pause });
          conn = update s.conn pid (record c { obj_state = ObjectState.pause; conn_fd = none });
          sock_recovery = update s.sock_recovery pid true;
          partner_created = update s.partner_created pid false;
        },
        ops.hang_up (descriptor_of c.conn_fd) w,
      )

  pub pause_conn : ℕ → Server → W → Server × W
  pause_conn pid s w =
      let c = s.conn pid in
      (
        record s {
          conn = update s.conn pid (record c { obj_state = ObjectState.pause; conn_fd = none });
          sock_recovery = update s.sock_recovery pid true;
          partner_created = update s.partner_created pid false;
          total_conn = 0;
        },
        ops.hang_up (descriptor_of c.conn_fd) w,
      )

  abbrev pub is_released_io : IoState → Bool
  is_released_io IoState.released = true
  is_released_io _ = false

  abbrev pub start_lba : Header → Sizes → ℕ
  start_lba h z = (h.curr_pos * z.grain_size + h.chunk_pos * z.chunk_size) % 2 ^ 64

  -- What `get_data` does with the buffer that it read, which is sent even after a failed reading.
  abbrev pub answer : Header → Server → Bool × Bytes × W → Header × Server × W
  answer h s0 (read, b, w1) =
      let pid = h.partner_id in
      let (s1, w2) = if read then (s0, w1) else pause_disk pid s0 w1 in
      let (sent, w3) = chunk_write_server ops (s1.partner pid).socket_fd b buf_size_in_bytes w2 in
      let (s2, w4) = if sent then (s1, w3) else pause_conn pid s1 w3 in (h, s2, w4)

  -- `get_data`
  pub get_data : Header → Server → W → Header × Server × W
  unfolding pause_disk pause_conn
  get_data h s w =
      let pid = h.partner_id in
      let lba = start_lba h (s.sizes pid) in
      let read = chunk_read_server ops (s.disk pid).disk_fd (λ i. 0) buf_size_in_bytes lba w in
      if is_released_io (s.io pid) then (h, s, w) else answer h s read

  -- `syn_received`, with `replic_hdr_server_nego`: the server's sizes are answered. The result of
  -- the sending is not looked at.
  pub syn_received : Header → Server → W → Option (Header × Server × W)
  syn_received h0 s w =
      let pid = h0.partner_id in
      let z = s.sizes pid in
      let h : Header = record h0 {
        bitmap_size = z.bitmap_size;
        grain_size = z.grain_size;
        chunk_size = z.chunk_size;
        opcode = Opcode.syn_ack;
      } in
      let r : Relation = record (s.relation pid) {
        bitmap_size = z.bitmap_size;
        grain_size = z.grain_size;
        chunk_size = z.chunk_size;
      } in
      let (sent, w1) = ops.send (s.partner pid).socket_fd (header h) w in
      if s.rep_conn pid
      then some (
        h,
        record s { relation = update s.relation pid r; db = insert_into_relation pid r ∷ s.db },
        w1,
      )
      else none

  -- `data_req`
  pub data_req : Header → Server → W → Option (Header × Server × W)
  data_req h0 s w =
      let pid = h0.partner_id in
      let h : Header = record h0 { opcode = Opcode.data_prep; available_size = 4096 } in
      let (sent, w1) = ops.send (s.partner pid).socket_fd (header h) w in
      if s.rep_conn pid then some (h, s, w1) else none

  -- The dispatch of `ebdr_conn_server_recv` on a header that was received; the entry of `cmdMap`
  -- for VERIFY_DATA is an argument.
  pub dispatch :
      (Header → Server → W → Option (Header × Server × W))
      → Option ℕ
      → Answers
      → Answers
      → Header
      → Server
      → W
      → Option (Header × Server × W)
  unfolding get_bitmap get_data make_partner remove_partner syn_received terminate data_req
  dispatch verify_data block a a' h s w = elim h.opcode [
    | Opcode.bitmap_metadata ↦ get_bitmap block a a' h s w
    | Opcode.data_op ↦ some (get_data h s w)
    | Opcode.make_partner ↦ elim (make_partner h s) [
      | none ↦ none
      | some (h1, s1) ↦ some (h1, s1, w)
    ]
    | Opcode.remove_partner ↦
        (let (h1, s1) = remove_partner h s in
          some (h1, s1, ops.hang_up (s.partner h.partner_id).socket_fd w))
    | Opcode.rm_relation ↦ some (h, release_relation h.relation_id s, w)
    | Opcode.syn ↦ syn_received h s w
    | Opcode.ack ↦ some (h, s, w)
    | Opcode.rplc_termination ↦ (let (h1, s1) = terminate h s in some (h1, s1, w))
    | Opcode.data_req ↦ data_req h s w
    | Opcode.verify_data ↦ verify_data h s w
    | _ ↦ some (h, s, w)
  ]

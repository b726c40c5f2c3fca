-- ===== src/User/Client/Metadata.antt =====
-- The client's request for a bitmap, `request_server_for_metadata` of user/atdr_linux/atdr_daemon.c, with
-- the file of atdr_bitmap_client.c that keeps the bitmap.
pub mod Keys
pub mod File
use greko.Base.{
  ℕ, ◌/◌, ◌%◌, Bool, true, false, Option, none, some, List, ◌∷◌, ◌++◌, ◌==◌, if◌then◌else◌, update,
  ◌>>=◌, ◌>>◌, require,
}
use greko.Base.Bits.{testbit}
use greko.Base.Text.{codes, decimal}
use greko.Memory.{Memory, load}
use greko.User.Types.{Bytes, Header, Opcode, PartnerState, RelationState, ObjectState}
use greko.User.Server.Handlers.{bytes_of}
use greko.User.Client.{Daemon, System, ClientBitmap, Statement, set_hdr, bitmap_client_create}
use greko.User.Client.Session.{send_hdr}

-- `sprintf(file_name, "%s%d", BITMAP_FILE, pid)`
abbrev pub bitmap_file : ℕ → List ℕ
bitmap_file pid = codes "/tmp/bitmap" ++ decimal pid

-- The bits of a buffer.
abbrev pub bits_of : Bytes → Memory
bits_of b i = testbit (b (i / 8)) (i % 8)

abbrev pub area_of : Option Memory → Memory
area_of none = λ i. false
area_of (some m) = m

abbrev pub is_paused_object : ObjectState → Bool
is_paused_object ObjectState.pause = true
is_paused_object _ = false

abbrev pub is_released_state : PartnerState → Bool
is_released_state PartnerState.released = true
is_released_state _ = false

module _ {W : Type 0} (sys : System W) where
  -- `request_server_for_metadata` for a partner that was released: it is used again.
  pub reuse_client : ℕ → Daemon → Daemon
  reuse_client pid s =
      if is_released_state (s.partner pid).obj_state
      then record s {
        partner = update s.partner pid (record (s.partner pid) { obj_state = PartnerState.in_use });
        relation =
            update s.relation pid (record (s.relation pid) { obj_state = RelationState.in_use });
        disk = update s.disk pid (record (s.disk pid) { obj_state = ObjectState.in_use });
        db =
            Statement.update_disk_state pid ObjectState.in_use
            ∷ Statement.update_relation_state pid RelationState.in_use
            ∷ Statement.update_into_partner pid PartnerState.in_use
            ∷ s.db;
      }
      else s

  -- `store_bitmap_to_disk`; without an area the process stops.
  unfoldable pub store_bitmap_to_disk : ℕ → Daemon → W → Option W
  store_bitmap_to_disk pid s w = do
    let b = s.bitmap pid
    area ← b.bitmap_area
    let (ok, w1) = sys.store_file (bitmap_file pid) b.bitmap_size (bytes_of area 0) w
    require ok
    some w1

  -- `load_bitmap_from_disk`; without an area the process stops.
  unfoldable pub load_bitmap_from_disk : ℕ → Daemon → W → Option (Daemon × W)
  load_bitmap_from_disk pid s w = do
    let b = s.bitmap pid
    area ← b.bitmap_area
    let (ok, bytes, w1) = sys.load_file (bitmap_file pid) b.bitmap_size (bytes_of area 0) w
    require ok
    let b1 : ClientBitmap = record b { bitmap_area = some (bits_of bytes) }
    some (record s { bitmap = update s.bitmap pid b1 }, w1)

  -- The receiving of a bitmap, `recv_data`: what arrives is stored only if its first word is not 0.
  pub receive_bitmap : ℕ → Daemon → W → Option (Daemon × W)
  unfolding store_bitmap_to_disk
  receive_bitmap pid s w = do
    let b = s.bitmap pid
    let (ok, bytes, w1) =
        sys.posix.recv (s.partner pid).socket_fd (bytes_of (area_of b.bitmap_area) 0) b.bitmap_size
          w
    require ok
    let s1 : Daemon = record s {
      bitmap = update s.bitmap pid (record b { bitmap_area = some (bits_of bytes) });
      disk = update s.disk pid (record (s.disk pid) { has_bitmap = true });
    }
    let stored = store_bitmap_to_disk pid s1 w1
    if load 64 (bits_of bytes) 0 == 0 then some (s1, w1) else (do w2 ← stored; some (s1, w2))

  -- `request_server_for_metadata`
  pub request_server_for_metadata : ℕ → Daemon → W → Option (Daemon × W)
  unfolding send_hdr reuse_client receive_bitmap
  request_server_for_metadata pid s w = do
    (s1, w1) ← bitmap_client_create sys pid s w
    let h : Header = record (s1.hdr pid) { opcode = Opcode.bitmap_metadata; partner_id = pid }
    let s2 = reuse_client pid (set_hdr pid h s1)
    let b : ClientBitmap = record (s2.bitmap pid) { obj_state = ObjectState.in_use }
    let s3 : Daemon = record s2 { bitmap = update s2.bitmap pid b }
    if is_paused_object (s2.bitmap pid).obj_state then some (s2, w1) else (do
      (s4, w4) ← send_hdr sys pid (s3.partner pid).socket_fd s3 w1
      receive_bitmap pid s4 w4)

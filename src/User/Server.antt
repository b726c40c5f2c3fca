-- ===== src/User/Server.antt =====
-- The server daemon's handlers: replic_server.c, with the objects of atdr_partner_server.c,
-- atdr_relation_server.c, atdr_replic_header_server.c and atdr_io_engine_server.c that they use. The
-- global arrays are functions of the index. A handler gives none when the process stops (`stop_work`,
-- or a NULL pointer); it returns the header, which belongs to the receiving thread.
pub mod Handlers
pub mod Receiving
pub mod Accept
pub mod Source
use greko.Base.{
  ℕ, zero, suc, ◌+◌, ◌-◌, ◌*◌, ◌/◌, ◌%◌, ◌^◌, Bool, true, false, ◌&&◌, ◌||◌, not, Option, none,
  some, List, [], ◌∷◌, ltb, ◌==◌, if◌then◌else◌, update,
}
use greko.Memory.{Memory}
use greko.Kernel.Device.{Kernel, Ioctl, Answers}
use greko.User.Types.{
  Bytes, Header, Opcode, PartnerState, RelationState, ObjectState, IoState, buf_size_in_bytes,
  user_bitmap_size,
}
use greko.User.Posix.{Posix, Packet, header, bytes}
use greko.User.IoEngine.{chunk_read_server, chunk_write_server}
use greko.User.ServerBitmap.{
  UserBitmap, Mapping, Loading, bitmap_server_create, bitmap_server_setup, bitmap_server_destroy,
}

-- MAX_PARTNERS, and MAX_CONN, MAX_IO, MAX_HDR and MAX_RELATIONS.
abbrev pub max_partners : ℕ
max_partners = 2048

-- struct partner
pub record Partner : Type 0 where
  pub id : ℕ
  pub ip : List ℕ
  pub bandwidth : ℕ
  pub is_active : Bool
  pub obj_state : PartnerState
  pub socket_fd : ℕ

-- struct relation, of which the role is whether it is RELATION_PRIMARY.
pub record Relation : Type 0 where
  pub is_primary : Bool
  pub relation_id : ℕ
  pub partner_id : ℕ
  pub obj_state : RelationState
  pub device : List ℕ
  pub bitmap_size : ℕ
  pub grain_size : ℕ
  pub chunk_size : ℕ

-- struct ebdr_disk, a source disk.
pub record SourceDisk : Type 0 where
  pub obj_state : ObjectState
  pub disk_fd : ℕ
  pub mapping : Mapping

-- struct ebdr_connection; none is the descriptor -1.
pub record Conn : Type 0 where
  pub obj_state : ObjectState
  pub conn_fd : Option ℕ

-- The sizes of `replic_hdr_server_obj`.
pub record Sizes : Type 0 where
  pub bitmap_size : ℕ
  pub grain_size : ℕ
  pub chunk_size : ℕ

-- The statements that the server sends to its database.
pub data ServerUpdate : Type 0 where
  insert_into_partner : ℕ → List ℕ → ℕ → ServerUpdate
  update_into_partner : ℕ → PartnerState → ServerUpdate
  update_relation_state : ℕ → RelationState → ServerUpdate
  update_disk_state : ℕ → ObjectState → ServerUpdate
  insert_into_relation : ℕ → Relation → ServerUpdate

-- The calls of `terminate`: `ioctl` with BLKFLSBUF and `close` of a disk's descriptor, and `free`
-- of a block.
pub data GivenBack : Type 0 where
  flush close free : ℕ → GivenBack

pub record Server : Type 0 where
  pub partner : ℕ → Partner
  pub relation : ℕ → Relation
  pub disk : ℕ → SourceDisk
  pub io : ℕ → IoState
  pub conn : ℕ → Conn
  pub sizes : ℕ → Sizes
  pub bitmap : ℕ → UserBitmap
  -- Whether `replic_server_obj[pid].rep_conn` is set; it is then `&ebdr_conn_server[pid]`.
  pub rep_conn : ℕ → Bool
  pub recovery_mode : ℕ → Bool
  pub partner_created : ℕ → Bool
  pub sock_recovery : ℕ → Bool
  pub total_conn : ℕ
  pub ps_count : ℕ
  pub ioctl_obj : Ioctl
  pub kernel : Kernel
  pub db : List ServerUpdate
  -- The descriptors and blocks that `terminate` gives back to Linux, the last one first.
  pub given_back : List GivenBack

-- `is_server_partner_id_valid`: whether one of the `n` entries from `i` on has the id.
pub has_id : (ℕ → Partner) → ℕ → ℕ → ℕ → Bool
has_id partner pid zero i = false
has_id partner pid (suc n) i = (partner i).id == pid || has_id partner pid n (suc i)

pub is_server_partner_id_valid : ℕ → Server → Bool
unfolding has_id
is_server_partner_id_valid pid s = has_id s.partner pid max_partners 0

-- `make_partner_server`
pub make_partner_server : List ℕ → ℕ → ℕ → ℕ → Server → Server
make_partner_server ip bandwidth sfd pid s = record s {
  partner = update s.partner pid (record (s.partner pid) {
    id = pid;
    obj_state = PartnerState.in_use;
    ip = ip;
    bandwidth = bandwidth;
    socket_fd = sfd;
  });
  ps_count = suc s.ps_count;
  db = insert_into_partner pid ip bandwidth ∷ s.db;
}

-- `make_relation_server`: the sizes are those that the header has before it is set up.
pub make_relation_server : Bool → ℕ → List ℕ → Server → Server
make_relation_server role pid disk s = record s {
  relation = update s.relation pid (record (s.relation pid) {
    is_primary = role;
    partner_id = pid;
    relation_id = pid;
    obj_state = RelationState.in_use;
    device = disk;
    bitmap_size = (s.sizes pid).bitmap_size;
    grain_size = (s.sizes pid).grain_size;
  });
}

-- `make_relation_with_client` of atdr_daemon.c.
pub make_relation_with_client : ℕ → ℕ → List ℕ → Sizes → Server → Option Server
unfolding make_relation_server is_server_partner_id_valid
make_relation_with_client pid role disk sizes s =
    if ltb pid max_partners
    then (if is_server_partner_id_valid pid s
        then (let s1 = make_relation_server (role == 0) pid disk s in
            some (record s1 { sizes = update s1.sizes pid sizes }))
        else some s)
    else none

-- The sizes that a header proposes.
abbrev pub proposed : Header → Sizes
proposed h = record {
  bitmap_size = h.bitmap_size;
  grain_size = h.grain_size;
  chunk_size = h.chunk_size;
}

abbrev pub descriptor_of : Option ℕ → ℕ
descriptor_of none = 2 ^ 32 - 1
descriptor_of (some fd) = fd

-- The slot that `replic_thread_init` accepts into, `MAX_CONN + 1`.
abbrev pub accept_slot : ℕ
accept_slot = 2049

-- `make_partner` up to the partner: `replic_server_obj_setup`, the connection that was accepted, and
-- `partner_server_obj_create`.
abbrev pub accepted : ℕ → Server → Server
accepted pid s = record s {
  rep_conn = update s.rep_conn pid true;
  conn = update s.conn pid (s.conn accept_slot);
  partner = update s.partner pid (record (s.partner pid) { is_active = true; bandwidth = 100 });
}

-- The partner's entry is then made.
abbrev pub joined : Header → Server → Server
joined h s =
    let pid = h.partner_id in
    make_partner_server h.dest_ip h.bandwidth (descriptor_of ((accepted pid s).conn pid).conn_fd)
      pid (accepted pid s)

-- `make_partner`, for an index that every table has.
pub make_partner : Header → Server → Option (Header × Server)
unfolding make_partner_server make_relation_with_client is_server_partner_id_valid
make_partner h s0 =
    let pid = h.partner_id in
    let s = joined h s0 in
    if ltb pid max_partners && ltb s0.ps_count max_partners
    then (if is_server_partner_id_valid pid s
        then elim (make_relation_with_client pid 0 h.disk (proposed h) s) [
          | none ↦ none
          | some s' ↦ some (h, s')
        ]
        else some (h, s))
    else none

-- `partner_server_obj_destroy`, without the `close`.
abbrev pub released_partner : Partner
released_partner = record {
  id = 0;
  ip = [];
  bandwidth = 0;
  is_active = false;
  obj_state = PartnerState.released;
  socket_fd = 0;
}

abbrev pub release_relation : ℕ → Server → Server
release_relation rid s = record s {
  relation = update s.relation rid (record (s.relation rid) { obj_state = RelationState.released });
}

abbrev pub is_in_use : RelationState → Bool
is_in_use RelationState.in_use = true
is_in_use _ = false

-- `remove_partner`
pub remove_partner : Header → Server → Header × Server
remove_partner h s0 =
    let pid = h.partner_id in
    let r = s0.relation pid in
    let s = if r.partner_id == pid && is_in_use r.obj_state then release_relation pid s0 else s0 in
    (h, record s { partner = update s.partner pid released_partner })

abbrev pub is_released_partner : PartnerState → Bool
is_released_partner PartnerState.released = true
is_released_partner _ = false

-- The end of a replication.
abbrev pub terminated : ℕ → Server → Server
terminated pid s =
    let d = s.disk pid in
    record s {
      kernel = record s.kernel {
        memory = bitmap_server_destroy (s.bitmap pid) d.mapping s.kernel.memory;
      };
      recovery_mode = update s.recovery_mode pid false;
      partner = update s.partner pid (record (s.partner pid) { obj_state = PartnerState.released });
      relation =
          update s.relation pid (record (s.relation pid) { obj_state = RelationState.released });
      disk = update s.disk pid (record d { obj_state = ObjectState.released });
      io = update s.io pid IoState.released;
      given_back =
          GivenBack.free (s.bitmap pid).bitmap_area
          ∷ GivenBack.close d.disk_fd
          ∷ GivenBack.flush d.disk_fd
          ∷ s.given_back;
      db = update_into_partner pid PartnerState.released ∷ s.db;
    }

-- `terminate`
pub terminate : Header → Server → Header × Server
terminate h s =
    if is_released_partner (s.partner h.partner_id).obj_state
    then (h, s)
    else (h, terminated h.partner_id s)

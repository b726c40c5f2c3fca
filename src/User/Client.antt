-- ===== src/User/Client.antt =====
-- The client daemon's tables: atdr_partner_client.c, atdr_relation_client.c, atdr_disk_target.c,
-- atdr_bitmap_client.c, atdr_conn_client.c, atdr_replic_header_client.c and atdr_replication_client.c
-- of user/atdr_linux. The global arrays are functions of the index. An operation gives none when the
-- process stops (`stop_work`, or an index outside a table). The pointers to operations are those of
-- the client, which each `init` stores.
pub mod View
pub mod Keys
pub mod Session
pub mod Metadata
pub mod Commands
pub mod Recovery
pub mod Requests
use greko.Base.{
  ℕ, zero, suc, ◌+◌, ◌-◌, ◌*◌, ◌/◌, ◌%◌, ◌^◌, Bool, true, false, ◌&&◌, ◌||◌, not, Option, none,
  some, List, [], ◌∷◌, ltb, ◌==◌, if◌then◌else◌, update, ◌>>=◌, ◌>>◌, require,
}
use greko.Base.Bits.{testbit}
use greko.Memory.{Memory}
use greko.User.Types.{
  Bytes, Header, Opcode, PartnerState, RelationState, ObjectState, IoState, RepState,
  user_bitmap_size,
}
use greko.User.Posix.{Posix}
use greko.User.Resync.{Update}
use greko.User.Server.{Partner, Relation, Sizes, max_partners, released_partner}

-- struct ebdr_disk, a target disk; `has_bitmap` is whether `bitmap` points to the bitmap object.
pub record TargetDisk : Type 0 where
  pub obj_state : ObjectState
  pub name : List ℕ
  pub disk_fd : ℕ
  pub bitmap_size : ℕ
  pub has_bitmap : Bool

-- struct ebdr_connection, of a client.
pub record ClientConn : Type 0 where
  pub obj_state : ObjectState
  pub sock_fd : ℕ
  pub is_connected : Bool

-- struct ebdr_replication; `rep_conn` is whether it points to the connection of the same index.
pub record Replication : Type 0 where
  pub rep_state : RepState
  pub last_resynced_bit : ℕ
  pub rep_conn : Bool

-- struct ebdr_user_bitmap, of a client; the area is none when it is not allocated or freed.
pub record ClientBitmap : Type 0 where
  pub bitmap_area : Option Memory
  pub bitmap_size : ℕ
  pub obj_state : ObjectState

-- The statements that the client sends to its database.
pub data Statement : Type 0 where
  of_resync : ℕ → Update → Statement
  insert_into_partner : ℕ → List ℕ → ℕ → Statement
  update_into_partner : ℕ → PartnerState → Statement
  update_relation_state : ℕ → RelationState → Statement
  update_disk_state : ℕ → ObjectState → Statement
  update_resync_state : ℕ → RepState → Statement
  insert_into_relation : ℕ → Relation → Statement
  insert_into_disk : ℕ → List ℕ → ℕ → Statement

pub record Daemon : Type 0 where
  pub hdr : ℕ → Header
  pub partner : ℕ → Partner
  pub relation : ℕ → Relation
  pub disk : ℕ → TargetDisk
  pub io : ℕ → IoState
  pub conn : ℕ → ClientConn
  pub replication : ℕ → Replication
  pub bitmap : ℕ → ClientBitmap
  pub recovery_mode : ℕ → Bool
  pub pc_count : ℕ
  pub dt_count : ℕ
  -- The threads that were created, `pid` and `bit_pos` of each.
  pub threads : List (ℕ × ℕ)
  pub db : List Statement

-- What the client calls of the system, besides the calls of its I/O engine. A header that `recv`
-- fills is returned; a path is its bytes.
pub record System (W : Type 0) : Type 0 where
  pub posix : Posix W
  pub recv_header : ℕ → Header → W → Bool × Header × W
  pub socket : W → Option ℕ × W
  -- `connect` to the port SRV_TCP_PORT of an address.
  pub connect : ℕ → List ℕ → W → Bool × W
  pub open_file : List ℕ → W → Option ℕ × W
  pub close : ℕ → W → Bool × W
  -- Whether `malloc` gives a block of that size.
  pub malloc : ℕ → W → Bool × W
  -- `fopen` for writing or reading, then `fwrite` or `fread` of the bytes, then `fclose`; false
  -- when `fopen` fails.
  pub store_file : List ℕ → ℕ → Bytes → W → Bool × W
  pub load_file : List ℕ → ℕ → Bytes → W → Bool × Bytes × W

abbrev pub set_partner : ℕ → Partner → Daemon → Daemon
set_partner pid p s = record s { partner = update s.partner pid p }

abbrev pub set_hdr : ℕ → Header → Daemon → Daemon
set_hdr pid h s = record s { hdr = update s.hdr pid h }

abbrev pub is_fresh : PartnerState → Bool
is_fresh PartnerState.in_use = false
is_fresh PartnerState.released = false
is_fresh _ = true

-- `get_new_partner_client_id`: the first of the `n` entries from `i` on that is neither in use nor
-- released; none is -1.
pub first_fresh : (ℕ → Partner) → ℕ → ℕ → Option ℕ
first_fresh partner zero i = none
first_fresh partner (suc n) i =
    if is_fresh (partner i).obj_state then some i else first_fresh partner n (suc i)

unfoldable pub get_new_partner_client_id : Daemon → Option ℕ
unfolding first_fresh
get_new_partner_client_id s = first_fresh s.partner max_partners 0

-- `is_client_partner_id_valid`: whether one of the `n` entries from `i` on has the id.
pub client_has_id : (ℕ → Partner) → ℕ → ℕ → ℕ → Bool
client_has_id partner pid zero i = false
client_has_id partner pid (suc n) i = (partner i).id == pid || client_has_id partner pid n (suc i)

pub is_client_partner_id_valid : ℕ → Daemon → Bool
unfolding client_has_id
is_client_partner_id_valid pid s = client_has_id s.partner pid max_partners 0

-- `a < b` for two `int`s, of which `b` is not negative.
abbrev pub int_ltb : ℕ → ℕ → Bool
int_ltb a b = ltb ((a + 2 ^ 31) % 2 ^ 32) (b + 2 ^ 31)

-- `partner_client_obj_create`
pub partner_client_obj_create : ℕ → Daemon → Option Daemon
partner_client_obj_create pid s = do
  require (int_ltb s.pc_count max_partners)
  some (set_partner pid (record (s.partner pid) { is_active = true }) s)

-- `make_partner_client`
pub make_partner_client : List ℕ → ℕ → ℕ → ℕ → Daemon → Daemon
make_partner_client ip bandwidth sfd pid s =
    let p : Partner = record (s.partner pid) {
      id = pid;
      obj_state = PartnerState.in_use;
      ip = ip;
      bandwidth = bandwidth;
      socket_fd = sfd;
    } in
    record s {
      partner = update s.partner pid p;
      pc_count = suc s.pc_count % 2 ^ 32;
      db = Statement.insert_into_partner pid ip bandwidth ∷ s.db;
    }

-- `make_relation_client`
pub make_relation_client : Bool → ℕ → List ℕ → Daemon → Daemon
make_relation_client role pid target_disk s = record s {
  relation = update s.relation pid (record (s.relation pid) {
    is_primary = role;
    partner_id = pid;
    relation_id = pid;
    obj_state = RelationState.in_use;
    device = target_disk;
    bitmap_size = (s.hdr pid).bitmap_size;
    grain_size = (s.hdr pid).grain_size;
  });
}

-- `relation_client_obj_destroy`
pub relation_client_obj_destroy : ℕ → Daemon → Daemon
relation_client_obj_destroy rid s = record s {
  relation = update s.relation rid (record (s.relation rid) { obj_state = RelationState.released });
}

-- `replic_hdr_client_nego`: the sizes of the header that was received.
pub replic_hdr_client_nego : Header → ℕ → Daemon → Daemon
replic_hdr_client_nego h pid s =
    set_hdr pid
      (record (s.hdr pid) {
        bitmap_size = h.bitmap_size;
        grain_size = h.grain_size;
        chunk_size = h.chunk_size;
      })
      s

-- `disk_target_create`, which takes its index from `dt_count`.
unfoldable pub disk_target_create : List ℕ → ℕ → Daemon → Daemon
disk_target_create name slot s =
    let pid = s.dt_count in
    let size = (s.relation pid).bitmap_size in
    let d : TargetDisk = record (s.disk slot) { obj_state = ObjectState.in_use; name = name } in
    if ltb pid max_partners
    then (if s.recovery_mode pid then record s { disk = update s.disk slot d } else record s {
      disk = update s.disk slot (record d { bitmap_size = size });
      db = Statement.insert_into_disk pid name size ∷ s.db;
    })
    else s

module _ {W : Type 0} (sys : System W) where
  -- `partner_client_obj_destroy`: the counter is an `int`.
  pub partner_client_obj_destroy : ℕ → Daemon → W → Daemon × W
  partner_client_obj_destroy pid s w =
      let (closed, w1) = sys.close (s.partner pid).socket_fd w in
      (
        record s {
          partner = update s.partner pid released_partner;
          pc_count = (s.pc_count + 2 ^ 32 - 1) % 2 ^ 32;
        },
        w1,
      )

  -- `disk_target_setup`; -1 leaves the disk as it was.
  unfoldable pub disk_target_setup : ℕ → Daemon → W → Daemon × W
  disk_target_setup slot s w =
      let (fd, w1) = sys.open_file (s.disk slot).name w in
      elim fd [
        | none ↦ (s, w1)
        | some fd ↦ (
          record s {
            disk = update s.disk slot (record (s.disk slot) { disk_fd = fd });
            dt_count = suc s.dt_count;
          },
          w1,
        )
      ]

  -- `ebdr_conn_client_setup` and `ebdr_conn_client_start`.
  unfoldable pub ebdr_conn_client_setup : List ℕ → ℕ → Daemon → W → Option (Daemon × W)
  ebdr_conn_client_setup ip pid s w = do
    let (fd, w1) = sys.socket w
    sock ← fd
    let (connected, w2) = sys.connect sock ip w1
    require connected
    let c : ClientConn = record {
      obj_state = ObjectState.in_use;
      sock_fd = sock;
      is_connected = true;
    }
    some (record s { conn = update s.conn pid c }, w2)

  -- `bitmap_client_create`
  unfoldable pub bitmap_client_create : ℕ → Daemon → W → Option (Daemon × W)
  bitmap_client_create pid s w = do
    let (given, w1) = sys.malloc user_bitmap_size w
    require given
    let b : ClientBitmap = record (s.bitmap pid) {
      bitmap_area = some (λ i. false);
      bitmap_size = user_bitmap_size;
    }
    some (record s { bitmap = update s.bitmap pid b }, w1)

-- ===== src/User/Client/Commands.antt =====
-- The commands of the client daemon, the branches of `parse_daemon_request` of
-- user/atdr_linux/atdr_daemon.c that a client serves, behind their parsing.
pub mod Keys
pub mod Joining
use greko.Base.{
  ℕ, ◌+◌, ◌-◌, ◌%◌, ◌^◌, Bool, true, false, ◌&&◌, Option, some, List, ◌∷◌, ltb, ◌==◌, if◌then◌else◌,
  update, ◌>>=◌, ◌>>◌, require,
}
use greko.User.Types.{Bytes, Header, Opcode, PartnerState, IoState, RepState}
use greko.User.Server.{max_partners, is_in_use}
use greko.User.Client.{
  Daemon, System, Replication, Statement, set_hdr, get_new_partner_client_id,
  is_client_partner_id_valid, partner_client_obj_create, make_partner_client,
  relation_client_obj_destroy, partner_client_obj_destroy, ebdr_conn_client_setup,
}
use greko.User.Client.Session.{Md5, send_hdr, make_relation_with_server}
use greko.User.Client.Metadata.{request_server_for_metadata}
use greko.User.Server.{Partner, has_id}

-- An `int` as an `unsigned long`.
abbrev pub int_to_long : ℕ → ℕ
int_to_long x = let y = x % 2 ^ 32 in if ltb y (2 ^ 31) then y else y + (2 ^ 64 - 2 ^ 32)

module _ {W : Type 0} (sys : System W) where
  -- `make_partner_with_server` from the connection on: the objects, the entry and the message.
  pub join_server : ℕ → List ℕ → ℕ → List ℕ → ℕ → ℕ → ℕ → Daemon → W → Option (Daemon × W)
  unfolding send_hdr
  join_server pid ip bandwidth disk bitmap_size grain_size chunk_size s w = do
    let r : Replication = record (s.replication pid) { rep_conn = true }
    s1 ← partner_client_obj_create pid (record s { replication = update s.replication pid r })
    let sock = (s1.conn pid).sock_fd
    let s2 = make_partner_client ip bandwidth sock pid s1
    let h : Header = record (s2.hdr pid) {
      opcode = Opcode.make_partner;
      bandwidth = bandwidth;
      partner_id = pid;
      dest_ip = ip;
      disk = disk;
      bitmap_size = bitmap_size;
      grain_size = grain_size;
      chunk_size = chunk_size;
    }
    send_hdr sys pid sock (set_hdr pid h s2) w

  -- `make_partner_with_server`; the index -1 of a full table stops the process.
  pub make_partner_with_server : List ℕ → ℕ → List ℕ → ℕ → ℕ → ℕ → Daemon → W → Option (Daemon × W)
  unfolding join_server
  make_partner_with_server ip bandwidth disk bitmap_size grain_size chunk_size s w = do
    pid ← get_new_partner_client_id s
    (s1, w1) ← ebdr_conn_client_setup sys ip pid s w
    join_server pid ip (int_to_long bandwidth) disk bitmap_size grain_size chunk_size s1 w1

  -- `remove_relation_in_client`
  pub remove_relation_in_client : ℕ → Daemon → W → Option (Daemon × W)
  unfolding send_hdr
  remove_relation_in_client rid s w = do
    require (ltb rid max_partners)
    let s1 = relation_client_obj_destroy rid s
    let h : Header = record (s1.hdr rid) { opcode = Opcode.rm_relation; relation_id = rid }
    send_hdr sys rid (s1.conn rid).sock_fd (set_hdr rid h s1) w

  -- `remove_partner_with_server`
  pub remove_partner_with_server : ℕ → Daemon → W → Option (Daemon × W)
  unfolding send_hdr
  remove_partner_with_server pid s w = do
    require (ltb pid max_partners)
    let h : Header = record (s.hdr pid) { opcode = Opcode.remove_partner; partner_id = pid }
    (s1, w1) ← send_hdr sys pid (s.conn pid).sock_fd (set_hdr pid h s) w
    let r = s1.relation pid
    let s2 =
        if r.partner_id == pid && is_in_use r.obj_state
        then relation_client_obj_destroy pid s1
        else s1
    some (partner_client_obj_destroy sys pid s2 w1)

-- `resync_init`: the I/O object is made, and the thread created.
unfoldable pub resync_init : ℕ → ℕ → Daemon → Option Daemon
resync_init pid bit_pos s = do
  require (ltb pid max_partners)
  some (record s { io = update s.io pid IoState.in_use; threads = (pid, bit_pos) ∷ s.threads })

-- What a client is asked for, with the numbers as words.
pub data Request : Type 0 where
  metadata remove_partner remove_relation resync pause resume : ℕ → Request
  make_partner : List ℕ → ℕ → List ℕ → ℕ → ℕ → ℕ → Request
  make_relation : ℕ → ℕ → List ℕ → ℕ → ℕ → ℕ → Request
  reload : Request

-- The branch `n`: a resynchronisation that has not got past its first grain is not paused.
pub pause_resync : ℕ → Daemon → Daemon
pause_resync pid s =
    let r = s.replication pid in
    if r.last_resynced_bit == 0 then s else record s {
      partner = update s.partner pid (record (s.partner pid) { obj_state = PartnerState.pause });
      replication = update s.replication pid (record r { rep_state = RepState.pause });
      db =
          Statement.update_resync_state pid RepState.pause
          ∷ Statement.update_into_partner pid PartnerState.pause
          ∷ s.db;
    }

abbrev pub is_completed_state : RepState → Bool
is_completed_state RepState.completed = true
is_completed_state _ = false

-- The branch `l`: a resynchronisation that is not completed starts again at its last grain.
pub resume_resync : ℕ → Daemon → Option Daemon
unfolding resync_init
resume_resync pid s =
    let r = s.replication pid in
    let s1 : Daemon = record s {
      partner = update s.partner pid (record (s.partner pid) { obj_state = PartnerState.resume });
      replication = update s.replication pid (record r { rep_state = RepState.resume });
      db =
          Statement.update_resync_state pid RepState.resume
          ∷ Statement.update_into_partner pid PartnerState.resume
          ∷ s.db;
    } in
    if is_completed_state r.rep_state then some s else resync_init pid r.last_resynced_bit s1

-- `is_server_partner_id_valid`, which the branch `k` asks of the client's own table of servers.
abbrev pub is_server_valid : (ℕ → Partner) → ℕ → Bool
is_server_valid servers pid = has_id servers pid max_partners 0

module _ {W : Type 0} (sys : System W) (md5sum : Md5 W) (validate_ipaddr : List ℕ → Bool)
    (servers : ℕ → Partner) (buff : Bytes) (mk_from_db : Daemon → W → Option (Daemon × W)) where
  -- The request `z` reads the tables again; `mk_from_db` is that of User.Database.Restart. A
  -- request whose partner id is not valid is only logged.
  unfoldable pub serve : Request → Daemon → W → Option (Daemon × W)
  unfolding pause_resync resume_resync resync_init remove_relation_in_client
      remove_partner_with_server make_partner_with_server
  serve (metadata pid) s w =
      if is_client_partner_id_valid pid s
      then request_server_for_metadata sys pid s w
      else some (s, w)
  serve (remove_partner pid) s w =
      if is_server_valid servers pid then remove_partner_with_server sys pid s w else some (s, w)
  serve (remove_relation rid) s w = remove_relation_in_client sys rid s w
  serve (resync pid) s w =
      if is_client_partner_id_valid pid s
      then (do s1 ← resync_init pid 0 s; some (s1, w))
      else some (s, w)
  serve (pause pid) s w =
      if is_client_partner_id_valid pid s then some (pause_resync pid s, w) else some (s, w)
  serve (resume pid) s w =
      if is_client_partner_id_valid pid s
      then (do s1 ← resume_resync pid s; some (s1, w))
      else some (s, w)
  serve (make_partner ip bandwidth disk bitmap_size grain_size chunk_size) s w =
      if validate_ipaddr ip
      then make_partner_with_server sys ip bandwidth disk bitmap_size grain_size chunk_size s w
      else some (s, w)
  serve (make_relation pid role disk bitmap_size grain_size chunk_size) s w =
      if is_client_partner_id_valid pid s
      then make_relation_with_server sys md5sum pid role disk bitmap_size grain_size chunk_size buff
          s w
      else some (s, w)
  serve reload s w = mk_from_db s w

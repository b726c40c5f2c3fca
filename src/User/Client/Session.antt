-- ===== src/User/Client/Session.antt =====
-- The messages of the client daemon, replic_client.c and atdr_conn_client.c of user/atdr_linux, and the
-- making of a relation with its negotiation, of atdr_daemon.c.
pub mod Keys
pub mod Negotiation
use greko.Base.{
  ℕ, ◌%◌, ◌^◌, ◌||◌, Option, none, some, List, ◌∷◌, ltb, leb, ◌==◌, if◌then◌else◌, update, ◌>>=◌,
  ◌>>◌, require,
}
use greko.Base.Text.{same_text}
use greko.User.Types.{Bytes, Header, Opcode, RepMode}
use greko.User.Posix.{header}
use greko.User.Resync.{Ending}
use greko.User.Server.{Relation, max_partners}
use greko.User.Client.{
  Daemon, System, Statement, set_hdr, is_client_partner_id_valid, make_relation_client,
  relation_client_obj_destroy, replic_hdr_client_nego, disk_target_create, disk_target_setup,
}
use greko.User.Client.View.{restart_at, terminate_at}

-- calculate_md5 runs md5sum on the part of a disk that a header names; none is its -1.
abbrev pub Md5 : Type 0 → Type 0
Md5 W = List ℕ → Header → W → Option (List ℕ) × W

module _ {W : Type 0} (sys : System W) where
  -- `send_hdr` of the header of `pid`; what it returns is not looked at. A NULL `rep_conn` stops.
  unfoldable pub send_hdr : ℕ → ℕ → Daemon → W → Option (Daemon × W)
  send_hdr pid sock s w = do
    require (s.replication pid).rep_conn
    some (s, (sys.posix.send sock (header (s.hdr pid)) w).1)

  -- `prepare_for_replication`
  unfoldable pub prepare_for_replication : List ℕ → ℕ → Daemon → W → Daemon × W
  prepare_for_replication target_disk pid s w =
      disk_target_setup sys pid (disk_target_create target_disk pid s) w

module _ {W : Type 0} (sys : System W) (md5sum : Md5 W) where
  -- `verify_data_resp`, with the header in the slot; `buff` is the buffer of `restart_resync`.
  pub verify_data_resp : ℕ → ℕ → Bytes → Daemon → W → Option (Daemon × W)
  verify_data_resp pid slot buff s w = do
    let (md5, w1) = md5sum (s.disk pid).name (s.hdr slot) w
    let (end, s2, w2) = restart_at sys.posix pid 0 RepMode.full_resync buff s w1
    elim md5 [
      | none ↦ some (terminate_at sys.posix pid s w1)
      | some found ↦
          if same_text (s.hdr slot).md5 found
          then some (terminate_at sys.posix pid s w1)
          else elim end [
            | Ending.cancelled ↦ none
            | Ending.trapped ↦ none
            | _ ↦ some (terminate_at sys.posix pid s2 w2)
          ]
    ]

  -- `remove_relationpeer`, of an `int`.
  pub remove_relationpeer : ℕ → Daemon → Option Daemon
  remove_relationpeer rid s =
      if rid == 0 || leb (2 ^ 31) rid
      then some s
      else (do require (ltb rid max_partners); some (relation_client_obj_destroy rid s))

  -- The answer in the header of `slot`, by its opcode. VERIFY_DATA_RSP falls through.
  pub reply : ℕ → Bytes → Daemon → W → Option (Daemon × W)
  unfolding verify_data_resp remove_relationpeer
  reply slot buff s w =
      let h = s.hdr slot in
      let pid = h.partner_id in
      elim h.opcode [
        | Opcode.syn_ack ↦ (do
          require (ltb pid max_partners)
          some (replic_hdr_client_nego h pid s, w))
        | Opcode.rm_relation_peer ↦ (do s1 ← remove_relationpeer h.relation_id s; some (s1, w))
        | Opcode.verify_data_rsp ↦ (do
          require (ltb pid max_partners)
          (s1, w1) ← verify_data_resp pid slot buff s w
          some (terminate_at sys.posix (s1.hdr slot).partner_id s1 w1))
        | Opcode.verify_data_ign ↦ (do
          require (ltb pid max_partners)
          some (terminate_at sys.posix pid s w))
        | _ ↦ some (s, w)
      ]

  -- `recv_hdr` into the header of `slot`.
  pub recv_hdr : ℕ → ℕ → Bytes → Daemon → W → Option (Daemon × W)
  unfolding reply
  recv_hdr slot sock buff s w = do
    let (ok, h, w1) = sys.recv_header sock (s.hdr slot) w
    require ok
    reply slot buff (set_hdr slot h s) w1

  -- `start_protocol_negotiation`; the sizes are passed as `unsigned int`.
  pub start_protocol_negotiation : ℕ → ℕ → ℕ → ℕ → Bytes → Daemon → W → Option (Daemon × W)
  unfolding send_hdr recv_hdr
  start_protocol_negotiation bitmap_size grain_size chunk_size pid buff s w = do
    let h : Header = record (s.hdr pid) {
      opcode = Opcode.syn;
      bitmap_size = bitmap_size % 2 ^ 32;
      grain_size = grain_size % 2 ^ 32;
      chunk_size = chunk_size % 2 ^ 32;
      partner_id = pid;
    }
    let sock = (s.partner pid).socket_fd
    (s1, w1) ← send_hdr sys pid sock (set_hdr pid h s) w
    (s2, w2) ← recv_hdr pid (s1.partner pid).socket_fd buff s1 w1
    send_hdr sys pid (s2.partner pid).socket_fd
        (set_hdr pid (record (s2.hdr pid) { opcode = Opcode.ack }) s2) w2

  -- `make_relation_with_server` from the negotiated sizes on.
  pub finish_relation : ℕ → List ℕ → Daemon → W → Daemon × W
  unfolding prepare_for_replication
  finish_relation pid target_disk s w =
      let h = s.hdr pid in
      let r : Relation = record (s.relation pid) {
        bitmap_size = h.bitmap_size;
        grain_size = h.grain_size;
        chunk_size = h.chunk_size;
      } in
      prepare_for_replication sys target_disk pid
        (record s {
          relation = update s.relation pid r;
          db = Statement.insert_into_relation pid r ∷ s.db;
        })
        w

  -- `make_relation_with_server`
  pub make_relation_with_server :
      ℕ → ℕ → List ℕ → ℕ → ℕ → ℕ → Bytes → Daemon → W → Option (Daemon × W)
  unfolding start_protocol_negotiation finish_relation
  make_relation_with_server pid role target_disk bitmap_size grain_size chunk_size buff s w = do
    require (ltb pid max_partners)
    let s1 = make_relation_client (role == 0) pid target_disk s
    let negotiated = start_protocol_negotiation bitmap_size grain_size chunk_size pid buff s1 w
    let invalid : Option (Daemon × W) = some (s, w)
    let made : Option (Daemon × W) =
        negotiated >>= λ (s2, w2). some (finish_relation pid target_disk s2 w2)
    if is_client_partner_id_valid pid s then made else invalid

-- ===== src/User/Database/Restart.antt =====
-- The start of the client daemon from its database, `db_init` of user/atdr_linux/atdr_db.c as it is built
-- with CLIENT: the tables are read, and each resynchronisation that is not completed is taken up again.
-- The reading of the configuration and the connection to MySQL are parameters.
pub mod Started
pub mod Resumed
use greko.Base.{
  ℕ, zero, suc, Bool, true, false, ◌||◌, not, Option, none, some, List, [], ◌∷◌, ltb, if◌then◌else◌,
  update, ◌>>=◌, ◌>>◌, require,
}
use greko.Base.Text.{codes}
use greko.User.Types.{Header}
use greko.User.Server.{max_partners}
use greko.User.Client.{
  Daemon, System, Replication, TargetDisk, set_hdr, set_partner, bitmap_client_create,
  ebdr_conn_client_setup,
}
use greko.User.Client.Session.{prepare_for_replication}
use greko.User.Client.Metadata.{load_bitmap_from_disk}
use greko.User.Client.Commands.{resync_init, is_completed_state}
use greko.User.Database.{Sql, pieces, use_text, sprintf}
use greko.User.Database.Rows.{
  retrieve_from_partner, retrieve_from_relation, retrieve_from_disk, retrieve_from_resync,
}

-- The partners that were found: `recovery_mode` of their ids, from the entry `i` on.
unfoldable pub recover : ℕ → ℕ → Daemon → Option Daemon
recover zero i s = some s
recover (suc n) i s = do
  let pid_c = (s.partner i).id
  require (ltb pid_c max_partners)
  recover n (suc i) (record s { recovery_mode = update s.recovery_mode pid_c true })

-- Whether `disk_target_create` stores no row: it would wait for the mutex that `db_init` holds.
abbrev pub stores_no_row : Daemon → Bool
stores_no_row s = s.recovery_mode s.dt_count || not (ltb s.dt_count max_partners)

module _ {D : Type 0} (sql : Sql D) where
  -- The request `z` of a client: mkpartner_from_db_on_client and mkrelation_from_db_on_client.
  pub mk_from_db : Daemon → D → Option (Daemon × D)
  mk_from_db s d = do
    (partners, partner, d1) ← retrieve_from_partner sql s.partner d
    (relations, relation, d2) ← retrieve_from_relation sql s.relation d1
    some (record s { partner = partner; relation = relation }, d2)

module _ {D : Type 0} (sql : Sql D) (connect : D → Option D) where
  -- The tables, each made if it is not there, and read; the number is that of the rows of `resync`.
  unfoldable pub load_tables : List ℕ → Daemon → D → Option (ℕ × Daemon × D)
  unfolding recover
  load_tables db_name s d = do
    d0 ← connect d
    create ← sprintf 100 (pieces (codes "CREATE DATABASE IF NOT EXISTS" ∷ codes " " ∷ db_name ∷ []))
    d1 ← sql.mysql_query create d0
    selected ← sprintf 100 (use_text db_name)
    d2 ← sql.mysql_query selected d1
    d3 ←
        sql.mysql_query
          (codes
            "CREATE TABLE IF NOT EXISTS Status(Id INT, PARTNERID INT, RELATIONID INT, Src TEXT, Date TEXT,\ttime TEXT, Percent INT)")
          d2
    d4 ←
        sql.mysql_query
          (codes
            "CREATE TABLE IF NOT EXISTS partner(pid INT, state INT, ip CHAR(128), bandwidth INT)")
          d3
    (partners, partner, d5) ← retrieve_from_partner sql s.partner d4
    s1 ← recover partners 0 (record s { partner = partner })
    d6 ←
        sql.mysql_query
          (codes
            "CREATE TABLE IF NOT EXISTS relation(role  INT, pid INT, rid INT, state INT, disk CHAR(128), bitmap_size INT, grain_size INT, chunk_size INT)")
          d5
    (relations, relation, d7) ← retrieve_from_relation sql s1.relation d6
    d8 ←
        sql.mysql_query
          (codes
            "CREATE TABLE IF NOT EXISTS disk(pid INT, name CHAR(128), snap_name CHAR(128), bitmap_size INT, state INT)")
          d7
    (disks, disk, d9) ← retrieve_from_disk sql s1.disk d8
    d10 ←
        sql.mysql_query
          (codes
            "CREATE TABLE IF NOT EXISTS resync(pid INT, target_disk CHAR(128), last_resynced_bit INT, state INT, status CHAR(128))")
          d9
    (n, objs, d11) ← retrieve_from_resync sql (λ i. (s1.replication i, disk i)) d10
    some (
      n,
      record s1 { relation = relation; replication = λ i. (objs i).0; disk = λ i. (objs i).1 },
      d11,
    )

module _ {W : Type 0} (sys : System W) where
  -- The bitmap from its file, and the thread that resynchronises from the bit that was stored.
  unfoldable pub take_up : ℕ → Daemon → W → Option (Daemon × W)
  unfolding resync_init
  take_up pid_c s w = do
    (s1, w1) ← bitmap_client_create sys pid_c s w
    (s2, w2) ← load_bitmap_from_disk sys pid_c s1 w1
    let d : TargetDisk = record (s2.disk pid_c) { has_bitmap = true }
    s3 ←
        resync_init pid_c (s2.replication pid_c).last_resynced_bit
          (record s2 { disk = update s2.disk pid_c d })
    some (s3, w2)

  -- The connection, the replication object and the disk of one partner.
  unfoldable pub reconnect : ℕ → Daemon → W → Option (Daemon × W)
  reconnect pid_c s w = do
    (s1, w1) ← ebdr_conn_client_setup sys (s.partner pid_c).ip pid_c s w
    let s2 =
        set_partner pid_c (record (s1.partner pid_c) { socket_fd = (s1.conn pid_c).sock_fd }) s1
    let r : Replication = record (s2.replication pid_c) { rep_conn = true }
    let s3 : Daemon = record s2 { replication = update s2.replication pid_c r }
    require (stores_no_row s3)
    some (prepare_for_replication sys (s3.disk pid_c).name pid_c s3 w1)

  -- A round of the loop, of a partner id.
  unfoldable pub restart_partner : ℕ → Daemon → W → Option (Daemon × W)
  restart_partner pid_c s w = do
    require (ltb pid_c max_partners)
    (s1, w1) ← reconnect pid_c s w
    let h : Header = record (s1.hdr pid_c) {
      grain_size = (s1.relation pid_c).grain_size;
      chunk_size = (s1.relation pid_c).chunk_size;
    }
    let s2 = set_hdr pid_c h s1
    let taken = take_up pid_c s2 w1
    if is_completed_state (s2.replication pid_c).rep_state then some (s2, w1) else taken

  -- The loop over `n` rows from `i` on: the partner id of a row is that of the entry `i` of the partners.
  unfoldable pub restart_from : ℕ → ℕ → Daemon → W → Option (Daemon × W)
  restart_from zero i s w = some (s, w)
  restart_from (suc n) i s w = do
    (s1, w1) ← restart_partner (s.partner i).id s w
    restart_from n (suc i) s1 w1

  module _ {D : Type 0} (sql : Sql D) (connect : D → Option D) where
    -- `db_init`
    unfoldable pub db_init : List ℕ → Daemon → D → W → Option (Daemon × D × W)
    db_init db_name s d w = do
      (n, s1, d1) ← load_tables sql connect db_name s d
      (s2, w1) ← restart_from n 0 s1 w
      some (s2, d1, w1)

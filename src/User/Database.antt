-- ===== src/User/Database.antt =====
-- The statements that the daemons send to MySQL, user/atdr_linux/atdr_db.c: the texts that sprintf writes
-- into arrays of 100 or 200 bytes, and the scans of the rows of a table. MySQL is a parameter. A function
-- gives none when the process stops (`finish_with_error`), or when a text overflows its array. The mutex
-- `db_lock` makes each function one step.
pub mod Rows
pub mod Calls
pub mod Texts
pub mod Tables
pub mod Filled
pub mod Followed
pub mod Restored
pub mod Restart
use greko.Base.{
  ℕ, zero, suc, ◌-◌, ◌%◌, ◌^◌, Bool, true, false, Option, none, some, List, [], ◌∷◌, ◌++◌, ltb,
  ◌==◌, if◌then◌else◌, update, ◌>>=◌, ◌>>◌, require,
}
use greko.Base.Text.{codes, decimal}
use greko.Adm.{length}
use greko.User.Types.{PartnerState, RelationState, ObjectState, RepState}
use greko.User.Server.{Partner, Relation}
use greko.User.Client.{TargetDisk, Replication, Statement}
use greko.User.Resync.{Update}
use greko.User.Client.Requests.{scan_word, scan_number, to_int, to_ulong}

-- The values of a row.
abbrev pub Row : Type 0
Row = List (List ℕ)

-- What the daemons call of MySQL, on its state: `mysql_query`, none when it fails, and the rows that
-- `mysql_store_result` and `mysql_fetch_row` give of a select, none when there is no result.
pub record Sql (D : Type 0) : Type 0 where
  pub mysql_query : List ℕ → D → Option D
  pub rows : D → Option (List Row)

-- `sprintf` into an array of `size` bytes, the last of them for the 0.
abbrev pub sprintf : ℕ → List ℕ → Option (List ℕ)
sprintf size t = do require (ltb (length t) size); some t

-- "%d" of an `int`.
abbrev pub printed_int : ℕ → List ℕ
printed_int n = if ltb n (2 ^ 31) then decimal n else 45 ∷ decimal (2 ^ 32 - n)

-- The numbers of the enumerations.
abbrev pub of_partner_state : PartnerState → ℕ
of_partner_state PartnerState.free = 0
of_partner_state PartnerState.in_use = 1
of_partner_state PartnerState.released = 2
of_partner_state PartnerState.pause = 3
of_partner_state PartnerState.recovery = 4
of_partner_state PartnerState.resume = 5

abbrev pub of_relation_state : RelationState → ℕ
of_relation_state RelationState.free = 0
of_relation_state RelationState.in_use = 1
of_relation_state RelationState.released = 2

abbrev pub of_disk_state : ObjectState → ℕ
of_disk_state ObjectState.in_use = 1
of_disk_state ObjectState.pause = 2
of_disk_state ObjectState.resume = 3
of_disk_state ObjectState.released = 4

abbrev pub of_rep_state : RepState → ℕ
of_rep_state RepState.in_progress = 0
of_rep_state RepState.pause = 1
of_rep_state RepState.resume = 2
of_rep_state RepState.completed = 3

-- The role of a relation, RELATION_PRIMARY or RELATION_SECONDARY.
abbrev pub role_of : Bool → ℕ
role_of true = 0
role_of false = 1

-- A text from its pieces.
unfoldable pub pieces : List (List ℕ) → List ℕ
pieces [] = []
pieces (a ∷ rest) = a ++ pieces rest

-- The texts of the statements.
abbrev pub insert_into_partner_text : ℕ → ℕ → List ℕ → ℕ → List ℕ
insert_into_partner_text pid state ip bandwidth = pieces (
    codes "INSERT INTO partner VALUES("
    ∷ printed_int pid
    ∷ codes ","
    ∷ printed_int state
    ∷ codes ",'"
    ∷ ip
    ∷ codes "',"
    ∷ decimal bandwidth
    ∷ codes ")"
    ∷ [])

abbrev pub update_into_partner_text : ℕ → ℕ → List ℕ
update_into_partner_text pid obj_state = pieces (
    codes "UPDATE partner SET state = "
    ∷ printed_int obj_state
    ∷ codes " WHERE pid = "
    ∷ printed_int pid
    ∷ [])

abbrev pub insert_into_relation_text : ℕ → ℕ → ℕ → ℕ → List ℕ → ℕ → ℕ → ℕ → List ℕ
insert_into_relation_text role pid rid state disk bitmap_size grain_size chunk_size = pieces (
    codes "INSERT INTO relation VALUES("
    ∷ printed_int role
    ∷ codes ","
    ∷ printed_int pid
    ∷ codes ","
    ∷ printed_int rid
    ∷ codes ","
    ∷ printed_int state
    ∷ codes ",'"
    ∷ disk
    ∷ codes "',"
    ∷ decimal bitmap_size
    ∷ codes ","
    ∷ decimal grain_size
    ∷ codes ","
    ∷ decimal chunk_size
    ∷ codes ")"
    ∷ [])

abbrev pub update_relation_state_text : ℕ → ℕ → List ℕ
update_relation_state_text pid state = pieces (
    codes "UPDATE relation SET state = "
    ∷ printed_int state
    ∷ codes " "
    ∷ codes "WHERE pid = "
    ∷ printed_int pid
    ∷ [])

abbrev pub insert_into_disk_text : ℕ → List ℕ → List ℕ → ℕ → ℕ → List ℕ
insert_into_disk_text pid name snap_name bitmap_size state = pieces (
    codes "INSERT INTO disk VALUES("
    ∷ printed_int pid
    ∷ codes ",'"
    ∷ name
    ∷ codes "'"
    ∷ codes ","
    ∷ codes "'"
    ∷ snap_name
    ∷ codes "',"
    ∷ decimal bitmap_size
    ∷ codes ","
    ∷ printed_int state
    ∷ codes ")"
    ∷ [])

abbrev pub update_into_disk_text : ℕ → List ℕ → List ℕ → List ℕ
update_into_disk_text pid name snap_name = pieces (
    codes "UPDATE disk SET pid = "
    ∷ printed_int pid
    ∷ codes ",snap_name = "
    ∷ codes "'"
    ∷ snap_name
    ∷ codes "'"
    ∷ codes " WHERE name = "
    ∷ codes "'"
    ∷ name
    ∷ codes "'"
    ∷ [])

abbrev pub update_disk_state_text : ℕ → ℕ → List ℕ
update_disk_state_text pid state = pieces (
    codes "UPDATE disk SET state = "
    ∷ printed_int state
    ∷ codes " "
    ∷ codes "WHERE pid = "
    ∷ printed_int pid
    ∷ [])

abbrev pub insert_into_resync_text : ℕ → List ℕ → ℕ → ℕ → List ℕ → List ℕ
insert_into_resync_text pid target_disk last_resynced_bit state status = pieces (
    codes "INSERT INTO resync VALUES("
    ∷ printed_int pid
    ∷ codes ",'"
    ∷ target_disk
    ∷ codes "',"
    ∷ decimal last_resynced_bit
    ∷ codes ","
    ∷ printed_int state
    ∷ codes ",' "
    ∷ status
    ∷ codes "')"
    ∷ [])

abbrev pub update_into_resync_text : ℕ → ℕ → ℕ → List ℕ
update_into_resync_text pid last_resynced_bit state = pieces (
    codes "UPDATE resync SET last_resynced_bit = "
    ∷ decimal last_resynced_bit
    ∷ codes " "
    ∷ codes "WHERE pid = "
    ∷ printed_int pid
    ∷ codes " AND state = "
    ∷ printed_int state
    ∷ [])

abbrev pub update_resync_state_text : ℕ → ℕ → List ℕ → List ℕ
update_resync_state_text pid state status = pieces (
    codes "UPDATE resync SET state = "
    ∷ printed_int state
    ∷ codes " , status = '"
    ∷ status
    ∷ codes "' WHERE pid = "
    ∷ printed_int pid
    ∷ [])

abbrev pub delete_from_resync_text : ℕ → List ℕ
delete_from_resync_text pid =
    pieces (codes "DELETE from resync WHERE pid = " ∷ printed_int pid ∷ [])

abbrev pub use_text : List ℕ → List ℕ
use_text db_name = pieces (codes "use " ∷ codes " " ∷ db_name ∷ [])

module _ {D : Type 0} (sql : Sql D) where
  -- What every statement does: its database is selected, then it is sent, from one array.
  unfoldable pub send_statement : ℕ → List ℕ → List ℕ → D → Option D
  send_statement size db_name text d = do
    selected ← sprintf size (use_text db_name)
    d1 ← sql.mysql_query selected d
    str ← sprintf size text
    sql.mysql_query str d1

  -- `insert_into_partner`
  unfoldable pub insert_into_partner : ℕ → ℕ → List ℕ → ℕ → List ℕ → D → Option D
  unfolding send_statement
  insert_into_partner pid state ip bandwidth db_name d =
      send_statement 200 db_name (insert_into_partner_text pid state ip bandwidth) d

  -- `update_into_partner`
  unfoldable pub update_into_partner : ℕ → ℕ → List ℕ → D → Option D
  unfolding send_statement
  update_into_partner pid obj_state db_name d =
      send_statement 100 db_name (update_into_partner_text pid obj_state) d

  -- `insert_into_relation`
  unfoldable pub insert_into_relation : ℕ → ℕ → ℕ → ℕ → List ℕ → ℕ → ℕ → ℕ → List ℕ → D → Option D
  unfolding send_statement
  insert_into_relation role pid rid state disk bitmap_size grain_size chunk_size db_name d =
      send_statement 200 db_name
        (insert_into_relation_text role pid rid state disk bitmap_size grain_size chunk_size) d

  -- `update_relation_state`
  unfoldable pub update_relation_state : ℕ → ℕ → List ℕ → D → Option D
  unfolding send_statement
  update_relation_state pid state db_name d =
      send_statement 100 db_name (update_relation_state_text pid state) d

  -- `insert_into_disk`
  unfoldable pub insert_into_disk : ℕ → List ℕ → List ℕ → ℕ → ℕ → List ℕ → D → Option D
  unfolding send_statement
  insert_into_disk pid name snap_name bitmap_size state db_name d =
      send_statement 100 db_name (insert_into_disk_text pid name snap_name bitmap_size state) d

  -- `update_into_disk`
  unfoldable pub update_into_disk : ℕ → List ℕ → List ℕ → List ℕ → D → Option D
  unfolding send_statement
  update_into_disk pid name snap_name db_name d =
      send_statement 100 db_name (update_into_disk_text pid name snap_name) d

  -- `update_disk_state`
  unfoldable pub update_disk_state : ℕ → ℕ → List ℕ → D → Option D
  unfolding send_statement
  update_disk_state pid state db_name d =
      send_statement 100 db_name (update_disk_state_text pid state) d

  -- `insert_into_resync`
  unfoldable pub insert_into_resync : ℕ → List ℕ → ℕ → ℕ → List ℕ → List ℕ → D → Option D
  unfolding send_statement
  insert_into_resync pid target_disk last_resynced_bit state status db_name d =
      send_statement 100 db_name
        (insert_into_resync_text pid target_disk last_resynced_bit state status) d

  -- `update_into_resync`
  unfoldable pub update_into_resync : ℕ → ℕ → ℕ → List ℕ → D → Option D
  unfolding send_statement
  update_into_resync pid last_resynced_bit state db_name d =
      send_statement 100 db_name (update_into_resync_text pid last_resynced_bit state) d

  -- `update_resync_state`
  unfoldable pub update_resync_state : ℕ → ℕ → List ℕ → List ℕ → D → Option D
  unfolding send_statement
  update_resync_state pid state status db_name d =
      send_statement 100 db_name (update_resync_state_text pid state status) d

  -- `delete_from_resync`
  unfoldable pub delete_from_resync : ℕ → List ℕ → D → Option D
  unfolding send_statement
  delete_from_resync pid db_name d = send_statement 100 db_name (delete_from_resync_text pid) d

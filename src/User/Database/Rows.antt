-- ===== src/User/Database/Rows.antt =====
-- The scans of the rows of a table, of user/atdr_linux/atdr_db.c: `retrieve_from_partner` and the like.
-- None is that the process stops, that a text overflows its array, or that a column is missing.
use greko.Base.{
  ℕ, zero, suc, ◌-◌, ◌%◌, ◌^◌, Bool, Option, none, some, List, [], ◌∷◌, ltb, ◌==◌, if◌then◌else◌,
  update, ◌>>=◌, ◌>>◌, require,
}
use greko.Base.Text.{codes}
use greko.User.Types.{PartnerState, RelationState, ObjectState, RepState}
use greko.User.Server.{Partner, Relation, max_partners}
use greko.User.Client.{TargetDisk, Replication}
use greko.User.Client.Requests.{scan_word, scan_number, signed, to_int, to_ulong}
use greko.User.Database.{
  Row, Sql, of_partner_state, of_relation_state, of_disk_state, of_rep_state, role_of,
}

-- The text of a column; none is a column that the row has not.
abbrev pub column : ℕ → Row → Option (List ℕ)
column k [] = none
column zero (c ∷ r) = some c
column (suc k) (c ∷ r) = column k r

-- "%u" of an `unsigned int`.
abbrev pub to_uint : Bool → ℕ → ℕ
to_uint negative v =
    (if ltb v (2 ^ 64) then (if negative then (2 ^ 64 - v) % 2 ^ 64 else v) else 2 ^ 64 - 1)
    % 2 ^ 32

-- The states that numbers stand for; none is a number that is no state, which C would keep.
abbrev pub to_partner_state : ℕ → Option PartnerState
to_partner_state n =
    if n == 0
    then some PartnerState.free
    else if n == 1
    then some PartnerState.in_use
    else if n == 2
    then some PartnerState.released
    else if n == 3
    then some PartnerState.pause
    else if n == 4
    then some PartnerState.recovery
    else if n == 5
    then some PartnerState.resume
    else none

abbrev pub to_relation_state : ℕ → Option RelationState
to_relation_state n =
    if n == 0
    then some RelationState.free
    else if n == 1
    then some RelationState.in_use
    else if n == 2
    then some RelationState.released
    else none

abbrev pub to_disk_state : ℕ → Option ObjectState
to_disk_state n =
    if n == 1
    then some ObjectState.in_use
    else if n == 2
    then some ObjectState.pause
    else if n == 3
    then some ObjectState.resume
    else if n == 4
    then some ObjectState.released
    else none

abbrev pub to_rep_state : ℕ → Option RepState
to_rep_state n =
    if n == 0
    then some RepState.in_progress
    else if n == 1
    then some RepState.pause
    else if n == 2
    then some RepState.resume
    else if n == 3
    then some RepState.completed
    else none

-- "%s" into an array of 64 bytes, and the numbers, of a row's text.
abbrev pub scan_name : List ℕ → List ℕ → Option (List ℕ)
scan_name old t = scan_word 64 old (some t) >>= λ r. some r.0

abbrev pub scan_d : ℕ → List ℕ → ℕ
scan_d old t = (scan_number to_int old (some t)).0

abbrev pub scan_u : ℕ → List ℕ → ℕ
scan_u old t = (scan_number to_uint old (some t)).0

abbrev pub scan_lu : ℕ → List ℕ → ℕ
scan_lu old t = (scan_number to_ulong old (some t)).0

-- What each round of the loops does with a row.
unfoldable pub read_partner : Row → Partner → Option Partner
unfolding scan_word signed
read_partner row p = do
  pid ← column 0 row
  state ← column 1 row
  ip ← column 2 row
  bandwidth ← column 3 row
  obj_state ← to_partner_state (scan_u (of_partner_state p.obj_state) state)
  address ← scan_name p.ip ip
  some (record p {
    id = scan_d p.id pid;
    obj_state = obj_state;
    ip = address;
    bandwidth = scan_lu p.bandwidth bandwidth;
  })

unfoldable pub read_relation : Row → Relation → Option Relation
unfolding scan_word signed
read_relation row r = do
  role ← column 0 row
  pid ← column 1 row
  rid ← column 2 row
  state ← column 3 row
  disk ← column 4 row
  bitmap_size ← column 5 row
  grain_size ← column 6 row
  chunk_size ← column 7 row
  obj_state ← to_relation_state (scan_u (of_relation_state r.obj_state) state)
  device ← scan_name r.device disk
  some (record r {
    is_primary = scan_u (role_of r.is_primary) role == 0;
    partner_id = scan_d r.partner_id pid;
    relation_id = scan_d r.relation_id rid;
    obj_state = obj_state;
    device = device;
    bitmap_size = scan_lu r.bitmap_size bitmap_size;
    grain_size = scan_lu r.grain_size grain_size;
    chunk_size = scan_lu r.chunk_size chunk_size;
  })

-- The name of a snapshot is not kept here: a target disk has none.
unfoldable pub read_disk : Row → TargetDisk → Option TargetDisk
unfolding scan_word signed
read_disk row d = do
  name ← column 1 row
  snap_name ← column 2 row
  bitmap_size ← column 3 row
  state ← column 4 row
  new_name ← scan_name d.name name
  snap ← scan_name [] snap_name
  obj_state ← to_disk_state (scan_u (of_disk_state d.obj_state) state)
  some (record d {
    name = new_name;
    bitmap_size = scan_lu d.bitmap_size bitmap_size;
    obj_state = obj_state;
  })

unfoldable pub read_resync : Row → Replication × TargetDisk → Option (Replication × TargetDisk)
unfolding scan_word signed
read_resync row (r, d) = do
  target_disk ← column 1 row
  bit ← column 2 row
  state ← column 3 row
  name ← scan_name d.name target_disk
  rep_state ← to_rep_state (scan_u (of_rep_state r.rep_state) state)
  some (
    record r { last_resynced_bit = scan_lu r.last_resynced_bit bit; rep_state = rep_state },
    record d { name = name },
  )

-- The loops: the row `i` goes into the entry `i` of a table, of which there are 2048.
unfoldable pub fill {ℓ} :
    {E : Type ℓ} → (Row → E → Option E) → List Row → ℕ → (ℕ → E) → Option (ℕ × (ℕ → E))
fill read [] i f = some (i, f)
fill read (row ∷ rest) i f = do
  require (ltb i max_partners)
  e ← read row (f i)
  fill read rest (suc i) (update f i e)

module _ {D : Type 0} (sql : Sql D) where
  -- A select, and the loop over its rows.
  unfoldable pub retrieve {ℓ} :
      {E : Type ℓ} → List ℕ → (Row → E → Option E) → (ℕ → E) → D → Option (ℕ × (ℕ → E) × D)
  unfolding fill
  retrieve query read f d = do
    d1 ← sql.mysql_query query d
    res ← sql.rows d1
    (n, g) ← fill read res 0 f
    some (n, g, d1)

  unfoldable pub retrieve_from_partner : (ℕ → Partner) → D → Option (ℕ × (ℕ → Partner) × D)
  unfolding retrieve
  retrieve_from_partner all_partner d =
      retrieve (codes "select * from partner where state != 2") read_partner all_partner d

  unfoldable pub retrieve_from_relation : (ℕ → Relation) → D → Option (ℕ × (ℕ → Relation) × D)
  unfolding retrieve
  retrieve_from_relation all_relation d =
      retrieve (codes "select * from relation where state != 2") read_relation all_relation d

  unfoldable pub retrieve_from_disk : (ℕ → TargetDisk) → D → Option (ℕ × (ℕ → TargetDisk) × D)
  unfolding retrieve
  retrieve_from_disk ebdr_dsk d =
      retrieve (codes "select * from disk where state != 4") read_disk ebdr_dsk d

  unfoldable pub retrieve_from_resync :
      (ℕ → Replication × TargetDisk) → D → Option (ℕ × (ℕ → Replication × TargetDisk) × D)
  unfolding retrieve
  retrieve_from_resync objs d =
      retrieve (codes "select * from resync where state != 3") read_resync objs d

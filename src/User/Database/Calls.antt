-- ===== src/User/Database/Calls.antt =====
-- The calls of the functions of user/atdr_linux/atdr_db.c that send a statement, as data, and which of
-- their texts are short enough for the arrays that they are written to.
use greko.Base.{ℕ, ◌+◌, ◌^◌, ◌≤◌, ◌<◌, Bool, false, Option, List, leb}
use greko.Adm.{length}
use greko.User.Database.{
  Sql, insert_into_partner, insert_into_partner_text, update_into_partner, update_into_partner_text,
  insert_into_relation, insert_into_relation_text, update_relation_state,
  update_relation_state_text, insert_into_disk, insert_into_disk_text, update_into_disk,
  update_into_disk_text, update_disk_state, update_disk_state_text, insert_into_resync,
  insert_into_resync_text, update_into_resync, update_into_resync_text, update_resync_state,
  update_resync_state_text, delete_from_resync, delete_from_resync_text,
}

-- The arguments but for the name of the database.
pub data Call : Type 0 where
  insert_partner : ℕ → ℕ → List ℕ → ℕ → Call
  update_partner : ℕ → ℕ → Call
  insert_relation : ℕ → ℕ → ℕ → ℕ → List ℕ → ℕ → ℕ → ℕ → Call
  update_relation : ℕ → ℕ → Call
  insert_disk : ℕ → List ℕ → List ℕ → ℕ → ℕ → Call
  rename_disk : ℕ → List ℕ → List ℕ → Call
  update_disk : ℕ → ℕ → Call
  insert_resync : ℕ → List ℕ → ℕ → ℕ → List ℕ → Call
  update_bit : ℕ → ℕ → ℕ → Call
  update_resync : ℕ → ℕ → List ℕ → Call
  delete_resync : ℕ → Call

module _ {D : Type 0} (sql : Sql D) where
  -- The function of each call.
  unfoldable pub perform : Call → List ℕ → D → Option D
  unfolding insert_into_partner update_into_partner insert_into_relation update_relation_state
      insert_into_disk update_into_disk update_disk_state insert_into_resync update_into_resync
      update_resync_state delete_from_resync
  perform (insert_partner pid state ip bandwidth) db d =
      insert_into_partner sql pid state ip bandwidth db d
  perform (update_partner pid state) db d = update_into_partner sql pid state db d
  perform (insert_relation role pid rid state disk bitmap_size grain_size chunk_size) db d =
      insert_into_relation sql role pid rid state disk bitmap_size grain_size chunk_size db d
  perform (update_relation pid state) db d = update_relation_state sql pid state db d
  perform (insert_disk pid name snap_name bitmap_size state) db d =
      insert_into_disk sql pid name snap_name bitmap_size state db d
  perform (rename_disk pid name snap_name) db d = update_into_disk sql pid name snap_name db d
  perform (update_disk pid state) db d = update_disk_state sql pid state db d
  perform (insert_resync pid target_disk bit state status) db d =
      insert_into_resync sql pid target_disk bit state status db d
  perform (update_bit pid bit state) db d = update_into_resync sql pid bit state db d
  perform (update_resync pid state status) db d = update_resync_state sql pid state status db d
  perform (delete_resync pid) db d = delete_from_resync sql pid db d

-- The text of each call, and the size of its array.
abbrev pub text_of : Call → List ℕ
text_of (insert_partner pid state ip bandwidth) = insert_into_partner_text pid state ip bandwidth
text_of (update_partner pid state) = update_into_partner_text pid state
text_of (insert_relation role pid rid state disk bitmap_size grain_size chunk_size) =
    insert_into_relation_text role pid rid state disk bitmap_size grain_size chunk_size
text_of (update_relation pid state) = update_relation_state_text pid state
text_of (insert_disk pid name snap_name bitmap_size state) =
    insert_into_disk_text pid name snap_name bitmap_size state
text_of (rename_disk pid name snap_name) = update_into_disk_text pid name snap_name
text_of (update_disk pid state) = update_disk_state_text pid state
text_of (insert_resync pid target_disk bit state status) =
    insert_into_resync_text pid target_disk bit state status
text_of (update_bit pid bit state) = update_into_resync_text pid bit state
text_of (update_resync pid state status) = update_resync_state_text pid state status
text_of (delete_resync pid) = delete_from_resync_text pid

abbrev pub size_of : Call → ℕ
size_of (insert_partner pid state ip bandwidth) = 200
size_of (insert_relation role pid rid state disk bitmap_size grain_size chunk_size) = 200
size_of _ = 100

-- Ids below 10000, states and roles of one digit, numbers of an `unsigned long`, addresses and
-- devices that an array of 64 bytes holds; the names of disks have together at most 41 bytes in the
-- table `disk`, 42 in a renaming, and a name at most 39 in the table `resync`, where the bit has one
-- digit and the status at most 18 bytes.
abbrev pub Fits : Call → Type 0
Fits (insert_partner pid state ip bandwidth) =
    (pid < 10 ^ 4) × (state < 10) × (length ip < 64) × (bandwidth < 2 ^ 64)
Fits (update_partner pid state) = (pid < 10 ^ 4) × (state < 10)
Fits (insert_relation role pid rid state disk bitmap_size grain_size chunk_size) =
    (role < 10)
    × (pid < 10 ^ 4)
    × (rid < 10 ^ 4)
    × (state < 10)
    × (length disk < 64)
    × (bitmap_size < 2 ^ 64)
    × (grain_size < 2 ^ 64)
    × (chunk_size < 2 ^ 64)
Fits (update_relation pid state) = (pid < 10 ^ 4) × (state < 10)
Fits (insert_disk pid name snap_name bitmap_size state) =
    (pid < 10 ^ 4) × (length name + length snap_name ≤ 41) × (bitmap_size < 2 ^ 64) × (state < 10)
Fits (rename_disk pid name snap_name) = (pid < 10 ^ 4) × (length name + length snap_name ≤ 42)
Fits (update_disk pid state) = (pid < 10 ^ 4) × (state < 10)
Fits (insert_resync pid target_disk bit state status) =
    (pid < 10 ^ 4) × (length target_disk ≤ 39) × (bit < 10) × (state < 10) × (length status ≤ 18)
Fits (update_bit pid bit state) = (pid < 10 ^ 4) × (bit < 2 ^ 64) × (state < 10)
Fits (update_resync pid state status) = (pid < 10 ^ 4) × (state < 10) × (length status ≤ 18)
Fits (delete_resync pid) = pid < 10 ^ 4

-- A text that overflows its array, whatever its numbers are: that of a name of 63 bytes, with a snapshot
-- or with the status of a running resynchronisation.
abbrev pub is_too_long : Call → Bool
is_too_long (insert_disk pid name snap_name bitmap_size state) =
    leb 64 (length name + length snap_name)
is_too_long (rename_disk pid name snap_name) = leb 46 (length name + length snap_name)
is_too_long (insert_resync pid target_disk bit state status) =
    leb 61 (length target_disk + length status)
is_too_long _ = false

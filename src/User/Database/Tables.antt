-- ===== src/User/Database/Tables.antt =====
-- What MySQL documents of the statements of user/atdr_linux/atdr_db.c: the tables `partner` and `resync`,
-- what a statement does to them, and the rows that a select gives. The columns of a number are INT, those
-- of a text CHAR(128). The tables have no key, and InnoDB documents for such a table that its rows lie in
-- the order of their insertion, in which a select that reads the whole table comes to them.
use greko.Base.{
  ℕ, ◌^◌, ◌<◌, ◌≡◌, Bool, not, Option, some, List, [], ◌∷◌, ◌++◌, map, ◌==◌, if◌then◌else◌, ◌>>=◌,
}
use greko.Base.Text.{codes, decimal}
use greko.User.Database.{Row, Sql, use_text}
use greko.User.Database.Calls.{Call, perform, text_of}

pub record PartnerRow : Type 0 where
  pub pid : ℕ
  pub state : ℕ
  pub ip : List ℕ
  pub bandwidth : ℕ

pub record ResyncRow : Type 0 where
  pub pid : ℕ
  pub target_disk : List ℕ
  pub bit : ℕ
  pub state : ℕ
  pub status : List ℕ

pub record Tables : Type 0 where
  pub partner : List PartnerRow
  pub resync : List ResyncRow

abbrev pub keep {ℓ} : {A : Type ℓ} → (A → Bool) → List A → List A
keep p [] = []
keep p (a ∷ rest) = if p a then a ∷ keep p rest else keep p rest

-- What a statement does to a table: a row is inserted at the end, the rows of a partner id are revised
-- in their places, or removed.
pub data Change (T : Type 0) : Type 0 where
  add : T → Change T
  revise : ℕ → (T → T) → Change T
  remove : ℕ → Change T
  leave : Change T

unfoldable pub changed : {T : Type 0} → (T → ℕ) → Change T → List T → List T
changed pid (Change.add r) rows = rows ++ (r ∷ [])
changed pid (Change.revise n f) rows = map (λ r. if pid r == n then f r else r) rows
changed pid (Change.remove n) rows = keep (λ r. not (pid r == n)) rows
changed pid Change.leave rows = rows

abbrev pub change_of_partner : Call → Change PartnerRow
change_of_partner (Call.insert_partner pid state ip bandwidth) =
    Change.add (record { pid = pid; state = state; ip = ip; bandwidth = bandwidth })
change_of_partner (Call.update_partner pid state) =
    Change.revise pid (λ r. record r { state = state })
change_of_partner _ = Change.leave

-- The status of an insertion is behind a blank.
abbrev pub change_of_resync : Call → Change ResyncRow
change_of_resync (Call.insert_resync pid target_disk bit state status) = Change.add (record {
  pid = pid;
  target_disk = target_disk;
  bit = bit;
  state = state;
  status = 32 ∷ status;
})
change_of_resync (Call.update_bit pid bit state) =
    Change.revise pid (λ r. if r.state == state then record r { bit = bit } else r)
change_of_resync (Call.update_resync pid state status) =
    Change.revise pid (λ r. record r { state = state; status = status })
change_of_resync (Call.delete_resync pid) = Change.remove pid
change_of_resync _ = Change.leave

unfoldable pub effect : Call → Tables → Tables
unfolding changed
effect c t = record {
  partner = changed (λ r. r.pid) (change_of_partner c) t.partner;
  resync = changed (λ r. r.pid) (change_of_resync c) t.resync;
}

-- The text of a row.
abbrev pub partner_text : PartnerRow → Row
partner_text r = decimal r.pid ∷ decimal r.state ∷ r.ip ∷ decimal r.bandwidth ∷ []

abbrev pub resync_text : ResyncRow → Row
resync_text r = decimal r.pid ∷ r.target_disk ∷ decimal r.bit ∷ decimal r.state ∷ r.status ∷ []

-- What holds of each of a list.
abbrev pub Each {ℓ} : {A : Type ℓ} → (A → Type 0) → List A → Type 0
Each P [] = Unit
Each P (a ∷ rest) = P a × Each P rest

-- Whether a row is selected.
abbrev pub is_kept_partner : PartnerRow → Bool
is_kept_partner r = not (r.state == 2)

abbrev pub is_kept_resync : ResyncRow → Bool
is_kept_resync r = not (r.state == 3)

-- The numbers that a call stores, and that the columns INT hold them.
abbrev pub numbers_of : Call → List ℕ
numbers_of (Call.insert_partner pid state ip bandwidth) = pid ∷ state ∷ bandwidth ∷ []
numbers_of (Call.update_partner pid state) = pid ∷ state ∷ []
numbers_of (Call.insert_relation role pid rid state disk bitmap_size grain_size chunk_size) =
    role ∷ pid ∷ rid ∷ state ∷ bitmap_size ∷ grain_size ∷ chunk_size ∷ []
numbers_of (Call.update_relation pid state) = pid ∷ state ∷ []
numbers_of (Call.insert_disk pid name snap_name bitmap_size state) = pid ∷ bitmap_size ∷ state ∷ []
numbers_of (Call.rename_disk pid name snap_name) = pid ∷ []
numbers_of (Call.update_disk pid state) = pid ∷ state ∷ []
numbers_of (Call.insert_resync pid target_disk bit state status) = pid ∷ bit ∷ state ∷ []
numbers_of (Call.update_bit pid bit state) = pid ∷ bit ∷ state ∷ []
numbers_of (Call.update_resync pid state status) = pid ∷ state ∷ []
numbers_of (Call.delete_resync pid) = pid ∷ []

abbrev pub IsInt : Call → Type 0
IsInt c = Each (λ n. n < 2 ^ 31) (numbers_of c)

-- MySQL with the database `db`, its tables in each state, for these calls.
pub record Documented {D : Type 0} (sql : Sql D) (db : List ℕ) (calls : List Call) : Type 0 where
  pub tables : D → Tables
  pub selects :
      (d : D) → (d' : D) × (sql.mysql_query (use_text db) d ≡ some d') × (tables d' ≡ tables d)
  pub carries_out :
      Each
        (λ c.
          IsInt c
          → (d : D)
          → (d' : D) × (sql.mysql_query (text_of c) d ≡ some d')
            × (tables d' ≡ effect c (tables d)))
        calls
  pub shows_partner :
      (d : D)
      → (d' : D) × (sql.mysql_query (codes "select * from partner where state != 2") d ≡ some d')
        × (sql.rows d' ≡ some (map partner_text (keep is_kept_partner (tables d).partner)))
  pub shows_resync :
      (d : D)
      → (d' : D) × (sql.mysql_query (codes "select * from resync where state != 3") d ≡ some d')
        × (sql.rows d' ≡ some (map resync_text (keep is_kept_resync (tables d).resync)))

-- The calls, one after the other, and what they do.
unfoldable pub perform_all : {D : Type 0} → Sql D → List ℕ → List Call → D → Option D
perform_all sql db [] d = some d
perform_all sql db (c ∷ rest) d = do d1 ← perform sql c db d; perform_all sql db rest d1

unfoldable pub effects : List Call → Tables → Tables
effects [] t = t
effects (c ∷ rest) t = effects rest (effect c t)

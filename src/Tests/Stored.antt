-- ===== src/Tests/Stored.antt =====
-- A database with two partners and their resynchronisations: what the client's start reads of it.
use Prim.{tt}
use greko.Base.{
  ℕ, zero, suc, ◌<◌, ◌≡◌, refl, true, false, Option, none, some, List, [], ◌∷◌, map, if◌then◌else◌,
  arith, ◌>>=◌,
}
use greko.Base.Text.{codes, decimal, digits_of, value, is_digit, same_text}
use greko.Adm.{length}
use greko.User.Server.{Partner}
use greko.User.Client.Commands.{is_completed_state}
use greko.User.Client.{Daemon, System, Replication, TargetDisk}
use greko.User.Client.Requests.{is_space, scan_word, skip_space, take_while, signed}
use greko.User.Database.{Row, Sql, pieces, use_text}
use greko.User.Database.Calls.{Call, perform, text_of}
use greko.User.Database.Texts.{perform-Fits, perform-overflows}
use greko.User.Database.Tables.{
  Tables, changed, effect, effects, partner_text, resync_text, keep, is_kept_partner,
  is_kept_resync, IsInt, Documented, Each,
}
use greko.User.Database.Rows.{
  fill, retrieve, retrieve_from_partner, retrieve_from_relation, retrieve_from_disk,
  retrieve_from_resync, read_partner, read_relation, read_disk, read_resync,
}
use greko.User.Database.Restart.{recover, load_tables, db_init}
use greko.User.Database.Restart.Started.{Works}
use greko.User.Database.Restart.Resumed.{Waiting, Resumed, db_init-resumes}
use greko.Tests.Clients.{Files, no_files, a_system, a_daemon}

-- The tables, and the rows of the last select.
pub record Database : Type 0 where
  pub tables : Tables
  pub result : List Row

-- The statements of some calls, the two selects that are looked at, and else nothing.
abbrev carried : List Call → List ℕ → Database → Option Database
carried [] t d = some d
carried (c ∷ rest) t d =
    if same_text t (text_of c)
    then some (record d { tables = effect c d.tables })
    else carried rest t d

abbrev pub a_mysql : List Call → Sql Database
a_mysql calls = record {
  mysql_query = λ t d.
      if same_text t (codes "select * from partner where state != 2")
      then some (record d { result = map partner_text (keep is_kept_partner d.tables.partner) })
      else if same_text t (codes "select * from resync where state != 3")
      then some (record d { result = map resync_text (keep is_kept_resync d.tables.resync) })
      else if same_text t (codes "select * from relation where state != 2")
      then some (record d { result = [] })
      else if same_text t (codes "select * from disk where state != 4")
      then some (record d { result = [] })
      else carried calls t d;
  rows = λ d. some d.result;
}

abbrev the_calls : List Call
the_calls =
    Call.insert_partner 0 1 (codes "10.0.0.1") 100
    ∷ Call.insert_resync 0 (codes "/dev/sdb") 0 0 (codes "RESYNC_IN_PROGRESS")
    ∷ Call.insert_partner 1 1 (codes "10.0.0.2") 50
    ∷ Call.insert_resync 1 (codes "/dev/sdc") 0 0 (codes "RESYNC_IN_PROGRESS")
    ∷ Call.update_bit 0 7 0
    ∷ Call.update_resync 1 1 (codes "RESYNC_PAUSE")
    ∷ Call.update_partner 1 3
    ∷ []

abbrev db_name : List ℕ
db_name = codes "ebdrdbc"

abbrev empty : Database
empty = record { tables = record { partner = []; resync = [] }; result = [] }

carries :
    Each
      (λ c.
        IsInt c
        → (d : Database)
        → (d' : Database) × ((a_mysql the_calls).mysql_query (text_of c) d ≡ some d')
          × (d'.tables ≡ effect c d.tables))
      the_calls
unfolding same_text pieces decimal digits_of
carries = (
  λ int d. (_, refl, refl),
  (
    λ int d. (_, refl, refl),
    (
      λ int d. (_, refl, refl),
      (
        λ int d. (_, refl, refl),
        (λ int d. (_, refl, refl), (λ int d. (_, refl, refl), (λ int d. (_, refl, refl), tt))),
      ),
    ),
  ),
)

documented : Documented (a_mysql the_calls) db_name the_calls
unfolding same_text pieces decimal digits_of
documented = record {
  tables = λ d. d.tables;
  selects = λ d. (d, refl, refl);
  carries_out = carries;
  shows_partner = λ d. (_, refl, refl);
  shows_resync = λ d. (_, refl, refl);
}

-- A partner is inserted; the text is that which MySQL is sent.
perform-Fits_example :
    perform (a_mysql the_calls) (Call.insert_partner 0 1 (codes "10.0.0.1") 100) db_name empty ≡ (
      (a_mysql the_calls).mysql_query (use_text db_name) empty
      >>= (a_mysql the_calls).mysql_query
          (text_of (Call.insert_partner 0 1 (codes "10.0.0.1") 100)))
unfolding length
perform-Fits_example =
    perform-Fits (a_mysql the_calls) db_name (Call.insert_partner 0 1 (codes "10.0.0.1") 100) empty
      (omega arith) (omega arith, omega arith, omega arith, omega arith)

abbrev started_empty : Daemon
started_empty = record a_daemon { dt_count = 0; threads = [] }

abbrev objects : ℕ → Replication × TargetDisk
objects i = (started_empty.replication i, started_empty.disk i)

-- The start reads the tables as they were left.
abbrev pub left : Database
left = record { tables = effects the_calls empty.tables; result = [] }

abbrev loaded : Option (ℕ × Daemon × Database) → ℕ × Daemon × Database
loaded none = (0, started_empty, empty)
loaded (some r) = r

abbrev as_read : ℕ × Daemon × Database
as_read = loaded (load_tables (a_mysql []) (λ d. some d) db_name started_empty left)

reads :
    load_tables (a_mysql []) (λ d. some d) db_name started_empty left
    ≡ some (2, as_read.1, as_read.2)
unfolding load_tables recover retrieve_from_partner retrieve_from_relation retrieve_from_disk
    retrieve_from_resync retrieve fill read_partner read_relation read_disk read_resync scan_word
    skip_space take_while signed is_space same_text pieces decimal digits_of value is_digit effects
    effect changed length
reads = refl

abbrev a_starting_system : System Files
a_starting_system = record a_system { load_file = λ name n b w. (true, λ i. 85, w) }

works : Works a_starting_system
works = record {
  socket = λ w. (_, _, refl);
  connect = λ fd ip w. (_, refl);
  open_file = λ name w. (_, _, refl);
  malloc = λ n w. (_, refl);
  file = λ name i. 85;
  load_file = λ name n b w. (_, _, refl, λ i lt. refl);
}

own : (k : ℕ) → k < 2 → (as_read.1.partner k).id ≡ k
unfolding load_tables recover retrieve_from_partner retrieve_from_relation retrieve_from_disk
    retrieve_from_resync retrieve fill read_partner read_relation read_disk read_resync scan_word
    skip_space take_while signed is_space same_text pieces decimal digits_of value is_digit effects
    effect changed length
own zero lt = refl
own (suc zero) lt = refl
own (suc (suc k)) lt = absurd (omega (arith, lt))

recovering : (k : ℕ) → k < 2 → as_read.1.recovery_mode k ≡ true
unfolding load_tables recover retrieve_from_partner retrieve_from_relation retrieve_from_disk
    retrieve_from_resync retrieve fill read_partner read_relation read_disk read_resync scan_word
    skip_space take_while signed is_space same_text pieces decimal digits_of value is_digit effects
    effect changed length
recovering zero lt = refl
recovering (suc zero) lt = refl
recovering (suc (suc k)) lt = absurd (omega (arith, lt))

unfinished : (k : ℕ) → k < 2 → is_completed_state (as_read.1.replication k).rep_state ≡ false
unfolding load_tables recover retrieve_from_partner retrieve_from_relation retrieve_from_disk
    retrieve_from_resync retrieve fill read_partner read_relation read_disk read_resync scan_word
    skip_space take_while signed is_space same_text pieces decimal digits_of value is_digit effects
    effect changed length
unfinished zero lt = refl
unfinished (suc zero) lt = refl
unfinished (suc (suc k)) lt = absurd (omega (arith, lt))

counted : as_read.1.dt_count ≡ 0
unfolding load_tables recover retrieve_from_partner retrieve_from_relation retrieve_from_disk
    retrieve_from_resync retrieve fill read_partner read_relation read_disk read_resync scan_word
    skip_space take_while signed is_space same_text pieces decimal digits_of value is_digit effects
    effect changed length
counted = refl

waiting : Waiting 2 0 as_read.1
waiting = record {
  own = λ k le lt. own k (omega (arith, lt));
  recovering = λ k le lt. recovering k (omega (arith, lt));
  unfinished = λ k le lt. unfinished k (omega (arith, lt));
  count = counted;
  room = omega arith;
}

-- Both resynchronisations are taken up.
db_init-resumes_example :
    (s2 : Daemon) × (w2 : Files) × (db_init a_starting_system
        (a_mysql [])
        (λ d. some d)
        db_name
        started_empty
        left
        no_files
      ≡ some (s2, as_read.2, w2))
    × Resumed works.file 2 0 as_read.1 s2
db_init-resumes_example =
    db_init-resumes a_starting_system works (a_mysql []) (λ d. some d) db_name started_empty
      as_read.1 left as_read.2 no_files 2 reads waiting

-- The first partner was released: the row of the second one goes into the first entry.
abbrev one_released : List Call
one_released = Call.update_partner 0 2 ∷ Call.update_resync 0 3 (codes "RESYNC_COMPLETED") ∷ []

abbrev first_entry : Option (ℕ × (ℕ → Partner) × Database) → ℕ
first_entry none = 0
first_entry (some (n, partner, d)) = (partner 0).id

shifted :
    first_entry (
      retrieve_from_partner
        (a_mysql [])
        started_empty.partner
        (record left { tables = effects one_released left.tables }))
    ≡ 1
unfolding load_tables recover retrieve_from_partner retrieve_from_relation retrieve_from_disk
    retrieve_from_resync retrieve fill read_partner read_relation read_disk read_resync scan_word
    skip_space take_while signed is_space same_text pieces decimal digits_of value is_digit effects
    effect changed length
shifted = refl

-- The second partner was resynchronised first: the row of its disk goes into the first entry.
abbrev second_first : List Call
second_first =
    Call.insert_resync 1 (codes "/dev/sdc") 0 0 (codes "RESYNC_IN_PROGRESS")
    ∷ Call.insert_resync 0 (codes "/dev/sdb") 0 0 (codes "RESYNC_IN_PROGRESS")
    ∷ []

abbrev first_disk : Option (ℕ × (ℕ → Replication × TargetDisk) × Database) → List ℕ
first_disk none = []
first_disk (some (n, objs, d)) = (objs 0).1.name

swapped :
    first_disk (
      retrieve_from_resync
        (a_mysql [])
        objects
        (record empty { tables = effects second_first empty.tables }))
    ≡ codes "/dev/sdc"
unfolding load_tables recover retrieve_from_partner retrieve_from_relation retrieve_from_disk
    retrieve_from_resync retrieve fill read_partner read_relation read_disk read_resync scan_word
    skip_space take_while signed is_space same_text pieces decimal digits_of value is_digit effects
    effect changed length
swapped = refl

-- The name of a target disk of 63 bytes, which the arrays of the daemon hold.
abbrev a_long_name : List ℕ
a_long_name = codes "/dev/disk/by-id/ata-ST2000DM008-2FR102_ZFL000000000000000-part1"

overflows :
    perform (a_mysql []) (Call.insert_disk 0 a_long_name (codes "-") 131072 1) db_name empty ≡ none
unfolding length
overflows =
    perform-overflows (a_mysql []) db_name (Call.insert_disk 0 a_long_name (codes "-") 131072 1)
      empty (omega arith) refl

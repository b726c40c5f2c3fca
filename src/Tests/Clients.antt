-- ===== src/Tests/Clients.antt =====
-- A client with one partner: its commands, its bitmap file, its recovery, and the lines it is sent.
use Prim.{tt}
use greko.Base.{
  ℕ, ◌*◌, ◌<◌, ◌≡◌, ◌≢◌, refl, Bool, true, false, ◌&&◌, Option, none, some, List, [], ◌∷◌, ltb,
  ◌==◌, if◌then◌else◌, arith, ◌↔◌,
}
use greko.Base.Text.{codes, decimal, digits_of}
use greko.User.Types.{
  Bytes, Header, Opcode, PartnerState, RelationState, ObjectState, IoState, RepState,
}
use greko.User.Posix.{Posix}
use greko.User.Server.{max_partners, proposed}
use greko.User.Server.Handlers.{bytes_of}
use greko.User.Client.{
  Daemon, System, is_client_partner_id_valid, is_fresh, get_new_partner_client_id,
}
use greko.User.Client.Keys.{IsKeyed, is_client_partner_id_valid_iff}
use greko.User.Client.Session.{Md5, make_relation_with_server}
use greko.User.Client.Session.Negotiation.{Answering, make_relation_with_server-agrees}
use greko.User.Client.Metadata.{store_bitmap_to_disk, load_bitmap_from_disk, area_of, bitmap_file}
use greko.User.Client.Metadata.File.{FileLaws, Stores, load-store_bitmap}
use greko.User.Client.Commands.{Request, serve, pause_resync, make_partner_with_server, int_to_long}
use greko.User.Client.Commands.Joining.{make_partner_with_server-joins}
use greko.User.Client.Commands.Keys.{serve-IsKeyed}
use greko.User.Client.Recovery.{recovery_thread}
use greko.User.Client.Recovery.Pass.{Working, Passed, recovery_thread-resumes}
use greko.User.Client.Requests.{Locals, is_space, parse_daemon_request}
use greko.User.Client.Requests.Scanning.{is_word}
use greko.User.Client.Requests.Printed.{spaced_to, option_of, arguments_of, line_of}
use greko.User.Client.Requests.Served.{parse-main}
use greko.Adm.{Outcome, main, length}
use greko.Tests.Daemons.{a_header}

-- The files by name.
abbrev pub Files : Type 0
Files = List ℕ → Option (ℕ × Bytes)

abbrev same_name : List ℕ → List ℕ → Bool
same_name [] [] = true
same_name [] (y ∷ ys) = false
same_name (x ∷ xs) [] = false
same_name (x ∷ xs) (y ∷ ys) = x == y && same_name xs ys

same_name_refl : (xs : List ℕ) → same_name xs xs ≡ true
same_name_refl [] = refl
same_name_refl (x ∷ xs) = let rest = same_name_refl xs in ground arith

same_name-eq : (xs ys : List ℕ) → same_name xs ys ≡ true → xs ≡ ys
same_name-eq [] [] e = refl
same_name-eq [] (y ∷ ys) e = absurd (cc e)
same_name-eq (x ∷ xs) [] e = absurd (cc e)
same_name-eq (x ∷ xs) (y ∷ ys) e =
    let head : x ≡ y = ground arith in
    let tail : xs ≡ ys = same_name-eq xs ys (ground arith) in rw (head, tail) refl

same_name-ne : (xs ys : List ℕ) → xs ≢ ys → same_name xs ys ≡ false
same_name-ne xs ys ne = go (same_name xs ys) refl
  where
    go : (b : Bool) → same_name xs ys ≡ b → b ≡ false
    go true e = absurd (ne (same_name-eq xs ys e))
    go false e = refl

abbrev files_posix : Posix Files
files_posix = record {
  lseek = λ fd o w. (true, w);
  read = λ fd b n w. (true, b, w);
  write = λ fd b n w. (true, w);
  send = λ fd p w. (true, w);
  recv = λ fd b n w. (true, b, w);
  timed_out = λ w. false;
  hang_up = λ fd w. w;
  pauses = λ w. false;
}

-- Every call succeeds, and the server answers with 32 grains of 4 sectors in chunks of 2.
abbrev an_answer : Header
an_answer = record a_header {
  opcode = Opcode.syn_ack;
  partner_id = 3;
  bitmap_size = 32;
  grain_size = 4;
  chunk_size = 2;
}

abbrev pub a_system : System Files
a_system = record {
  posix = files_posix;
  recv_header = λ sock h w. (true, an_answer, w);
  socket = λ w. (some 7, w);
  connect = λ sock ip w. (true, w);
  open_file = λ name w. (some 8, w);
  close = λ fd w. (true, w);
  malloc = λ n w. (true, w);
  store_file = λ name n b w. (true, λ other. if same_name other name then some (n, b) else w other);
  load_file = λ name n b w. elim (w name) [
    | none ↦ (false, b, w)
    | some (m, c) ↦ (true, (λ i. if ltb i n && ltb i m then c i else b i), w)
  ];
}

abbrev pub no_files : Files
no_files name = none

abbrev no_md5 : Md5 Files
no_md5 name h w = (none, w)

-- The partner 3 is in use; its disk and its connection are paused.
abbrev pub a_daemon : Daemon
a_daemon = record {
  hdr = λ i. a_header;
  partner = λ i. record {
    id = if i == 3 then 3 else 0;
    ip = 49 ∷ [];
    bandwidth = 100;
    is_active = i == 3;
    obj_state = PartnerState.in_use;
    socket_fd = 5;
  };
  relation = λ i. record {
    is_primary = false;
    relation_id = i;
    partner_id = i;
    obj_state = RelationState.in_use;
    device = [];
    bitmap_size = 16;
    grain_size = 8;
    chunk_size = 8;
  };
  disk = λ i. record {
    obj_state = if i == 3 then ObjectState.pause else ObjectState.in_use;
    name = 100 ∷ [];
    disk_fd = 6;
    bitmap_size = 16;
    has_bitmap = true;
  };
  io = λ i. IoState.in_use;
  conn = λ i. record {
    obj_state = if i == 3 then ObjectState.pause else ObjectState.in_use;
    sock_fd = 5;
    is_connected = true;
  };
  replication = λ i. record { rep_state = RepState.pause; last_resynced_bit = 9; rep_conn = true };
  bitmap = λ i. record {
    bitmap_area = some (λ j. j == 5);
    bitmap_size = 16;
    obj_state = ObjectState.in_use;
  };
  recovery_mode = λ i. false;
  pc_count = 1;
  dt_count = 1;
  threads = [];
  db = [];
}

pub a_daemon-IsKeyed : IsKeyed a_daemon
a_daemon-IsKeyed i = ground arith

is_client_partner_id_valid_iff_example :
    (is_client_partner_id_valid 3 a_daemon ≡ true) ↔ ((a_daemon.partner 3).id ≡ 3)
is_client_partner_id_valid_iff_example =
    is_client_partner_id_valid_iff 3 a_daemon a_daemon-IsKeyed (omega arith)

partner_3_valid : is_client_partner_id_valid 3 a_daemon ≡ true
partner_3_valid = (is_client_partner_id_valid_iff 3 a_daemon a_daemon-IsKeyed (omega arith)).1 refl

pausing :
    serve a_system no_md5
      (λ ip. true)
      a_daemon.partner
      (λ i. 0)
      (λ s w. some (s, w))
      (Request.pause 3)
      a_daemon
      no_files
    ≡ some (pause_resync 3 a_daemon, no_files)
unfolding serve
pausing = rw (partner_3_valid) refl

serve-IsKeyed_example : IsKeyed (pause_resync 3 a_daemon)
serve-IsKeyed_example =
    serve-IsKeyed a_system no_md5 (λ ip. true) a_daemon.partner (λ i. 0) (λ s w. some (s, w))
      (Request.pause 3) a_daemon no_files (pause_resync 3 a_daemon) no_files (λ e. absurd (cc e))
      a_daemon-IsKeyed pausing

abbrev AnyFiles : Files → Type 0
AnyFiles w = Unit

abbrev answers : Answering a_system 3 (proposed an_answer) AnyFiles AnyFiles
answers = record {
  asked = λ sock h w r o p. tt;
  arrives = λ sock h w r. refl;
  is_syn_ack = λ sock h w r. refl;
  is_for = λ sock h w r. refl;
  answers = λ sock h w r. refl;
  received = λ sock h w r. tt;
  acknowledged = λ sock h w r o. tt;
  opened = λ name w r. tt;
}

make_relation_with_server-agrees_example :
    (t : Daemon) × (w1 : Files) × (make_relation_with_server a_system no_md5 3 1
        (100 ∷ [])
        16
        8
        8
        (λ i. 0)
        a_daemon
        no_files
      ≡ some (t, w1))
    × (proposed (t.hdr 3) ≡ proposed an_answer)
    × ((t.relation 3).bitmap_size ≡ 32)
    × ((t.relation 3).grain_size ≡ 4)
    × ((t.relation 3).chunk_size ≡ 2)
    × AnyFiles w1
make_relation_with_server-agrees_example =
    make_relation_with_server-agrees a_system no_md5 AnyFiles AnyFiles 3 1 (100 ∷ []) 16 8 8
      (proposed an_answer) (λ i. 0) a_daemon no_files answers tt (omega arith) (partner_3_valid)
      refl

abbrev working : Working a_system
working = record {
  close_works = λ fd w. refl;
  open_works = λ name w. (8, refl);
  socket_works = λ w. (7, refl);
  connect_works = λ fd ip w. refl;
}

recovery_thread-resumes_example :
    (t : Daemon) × (w1 : Files) × (recovery_thread a_system (λ pid. 0) a_daemon no_files
      ≡ some (t, w1))
    × Passed max_partners 0 a_daemon t
recovery_thread-resumes_example =
    recovery_thread-resumes a_system working (λ pid. 0) a_daemon no_files (λ j. omega arith)

abbrev a_system-FileLaws : FileLaws a_system
a_system-FileLaws = record {
  file = λ name w. w name;
  stored = λ name n b w ok. rw (same_name_refl name) refl;
  others = λ name other n b w ne. rw (same_name-ne other name ne) refl;
  loaded = λ name n m b c w e. rw e (refl, λ i lt small. ground arith);
}

-- The files after the bitmap of a partner id is stored.
abbrev stored_by : ℕ → Files → Files
stored_by pid w other =
    if same_name other (bitmap_file pid)
    then some (16, bytes_of (area_of (a_daemon.bitmap pid).bitmap_area) 0)
    else w other

storing :
    (pid : ℕ) (w : Files) → store_bitmap_to_disk a_system pid a_daemon w ≡ some (stored_by pid w)
unfolding store_bitmap_to_disk
storing pid w = refl

load-store_bitmap_example :
    (t : Daemon) × (w3 : Files) × (load_bitmap_from_disk a_system 3 a_daemon
        (stored_by 4 (stored_by 3 no_files))
      ≡ some (t, w3))
    × ((i : ℕ) → i < 8 * 16 → area_of (t.bitmap 3).bitmap_area i ≡ (i == 5))
load-store_bitmap_example =
    load-store_bitmap a_system a_system-FileLaws 3 a_daemon a_daemon no_files (stored_by 3 no_files)
      (stored_by 4 (stored_by 3 no_files)) (omega arith) (storing 3 no_files)
      (Stores.one_more 4 a_daemon (stored_by 3 no_files) (stored_by 4 (stored_by 3 no_files))
        (stored_by 4 (stored_by 3 no_files)) (omega arith) (λ e. absurd (omega (arith, e)))
        (storing 4 (stored_by 3 no_files)) (Stores.no_store (stored_by 4 (stored_by 3 no_files))))
      (λ i. i == 5) refl refl

-- A table of which no entry was ever taken.
abbrev a_new_daemon : Daemon
a_new_daemon = record a_daemon {
  partner = λ i. record {
    id = 0;
    ip = [];
    bandwidth = 0;
    is_active = false;
    obj_state = PartnerState.free;
    socket_fd = 0;
  };
}

first_entry : get_new_partner_client_id a_new_daemon ≡ some 0
unfolding get_new_partner_client_id
first_entry = refl

make_partner_with_server-joins_example :
    (t : Daemon) × (w1 : Files) × (make_partner_with_server a_system
        (49 ∷ [])
        100
        (100 ∷ [])
        16
        8
        8
        a_new_daemon
        no_files
      ≡ some (t, w1))
    × (t.partner 0 ≡ record {
      id = 0;
      ip = 49 ∷ [];
      bandwidth = int_to_long 100;
      is_active = true;
      obj_state = PartnerState.in_use;
      socket_fd = 7;
    })
    × ((j : ℕ) → j ≢ 0 → t.partner j ≡ a_new_daemon.partner j)
    × (is_fresh (a_new_daemon.partner 0).obj_state ≡ true)
    × ((j : ℕ) → j < 0 → is_fresh (a_new_daemon.partner j).obj_state ≡ false)
make_partner_with_server-joins_example =
    make_partner_with_server-joins a_system (49 ∷ []) 100 (100 ∷ []) 16 8 8 a_new_daemon no_files 0
      7 first_entry (omega arith) refl refl

abbrev locals : Locals
locals = record {
  pid = 0;
  rid = 0;
  partnerid = 0;
  role = 0;
  bandwidth = 0;
  bitmap_size = 0;
  grain_size = 0;
  chunk_size = 0;
  partner_ip = [];
  target_disk = [];
}

abbrev a_request : Request
a_request = Request.make_relation 3 1 (codes "/dev/sdb") 16 8 8

disk_word : is_word (codes "/dev/sdb") ≡ true
unfolding is_space
disk_word = refl

disk_small : length (codes "/dev/sdb") < 64
unfolding length
disk_small = omega arith

line_small : length (line_of a_request) < 200
unfolding length spaced_to decimal digits_of
line_small = omega arith

parse-main_example :
    (main (option_of a_request) (arguments_of a_request)
      ≡ some (Outcome.to_client (line_of a_request)))
    × (parse_daemon_request locals (line_of a_request) ≡ some (some a_request))
parse-main_example =
    parse-main locals a_request
      (omega arith, omega arith, (disk_word, disk_small), omega arith, omega arith, omega arith)
      line_small

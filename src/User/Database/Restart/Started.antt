-- ===== src/User/Database/Restart/Started.antt =====
-- What `db_init` of user/atdr_linux/atdr_db.c has made of each partner with a resynchronisation
-- that was not completed, when every call of the system succeeds.
use greko.Base.{
  ℕ, suc, ◌*◌, ◌/◌, ◌%◌, ◌<◌, ◌≡◌, ◌≢◌, refl, ap, ◌∙◌, Bool, true, false, none, some, List, ◌∷◌,
  ltb, if◌then◌else◌, arith, update, update_self, >>=-some,
}
use greko.User.Types.{Bytes, ObjectState, IoState, Header, user_bitmap_size}
use greko.User.Server.{max_partners}
use greko.User.Client.{
  Daemon, System, ClientConn, Replication, TargetDisk, ClientBitmap, set_hdr, set_partner,
  ebdr_conn_client_setup, disk_target_create, disk_target_setup, bitmap_client_create,
}
use greko.User.Client.Session.{prepare_for_replication}
use greko.Base.Bits.{testbit}
use greko.User.Client.Metadata.File.{load_bitmap_from_disk-loads}
use greko.User.Client.Metadata.{bits_of, bitmap_file, area_of}
use greko.User.Server.Handlers.{bytes_of}
use greko.User.Client.Commands.{resync_init, is_completed_state}
use greko.User.Database.Restart.{reconnect, take_up, restart_partner}

-- A system whose calls succeed, and in which no file changes during the start; `file` gives their bytes.
pub record Works {W : Type 0} (sys : System W) : Type 0 where
  pub socket : (w : W) → (fd : ℕ) × (w' : W) × (sys.socket w ≡ (some fd, w'))
  pub connect : (fd : ℕ) (ip : List ℕ) (w : W) → (w' : W) × (sys.connect fd ip w ≡ (true, w'))
  pub open_file :
      (name : List ℕ) (w : W) → (fd : ℕ) × (w' : W) × (sys.open_file name w ≡ (some fd, w'))
  pub malloc : (n : ℕ) (w : W) → (w' : W) × (sys.malloc n w ≡ (true, w'))
  pub file : List ℕ → Bytes
  pub load_file :
      (name : List ℕ) (n : ℕ) (b : Bytes) (w : W)
      → (b' : Bytes) × (w' : W) × (sys.load_file name n b w ≡ (true, b', w'))
        × ((i : ℕ) → i < n → b' i ≡ file name i)

-- The entry `i` after it was taken up in the state `s`: it is connected, its header has the sizes of its
-- relation, and its disk keeps its name and has the bitmap of its file.
pub record Up (file : List ℕ → Bytes) (i : ℕ) (s s1 : Daemon) : Type 0 where
  pub connected : (s1.conn i).is_connected ≡ true
  pub sock : (s1.partner i).socket_fd ≡ (s1.conn i).sock_fd
  pub grain : (s1.hdr i).grain_size ≡ (s.relation i).grain_size
  pub chunk : (s1.hdr i).chunk_size ≡ (s.relation i).chunk_size
  pub disk_name : (s1.disk i).name ≡ (s.disk i).name
  pub has_bitmap : (s1.disk i).has_bitmap ≡ true
  pub area :
      (k : ℕ)
      → k < 8 * user_bitmap_size
      → area_of (s1.bitmap i).bitmap_area k ≡ bits_of (file (bitmap_file i)) k
  pub size : (s1.bitmap i).bitmap_size ≡ user_bitmap_size
  pub rep_conn : (s1.replication i).rep_conn ≡ true
  pub rep_state : (s1.replication i).rep_state ≡ (s.replication i).rep_state
  pub bit : (s1.replication i).last_resynced_bit ≡ (s.replication i).last_resynced_bit

-- An entry that was left alone.
pub record Same (j : ℕ) (s s1 : Daemon) : Type 0 where
  pub hdr : s1.hdr j ≡ s.hdr j
  pub disk : s1.disk j ≡ s.disk j
  pub conn : s1.conn j ≡ s.conn j
  pub partner : s1.partner j ≡ s.partner j
  pub replication : s1.replication j ≡ s.replication j
  pub bitmap : s1.bitmap j ≡ s.bitmap j

-- One round: the last thread that was created is that of `i`, from the bit that was stored.
pub record Started (file : List ℕ → Bytes) (i : ℕ) (s s1 : Daemon) : Type 0 where
  pub threads : s1.threads ≡ (i, (s.replication i).last_resynced_bit) ∷ s.threads
  pub up : Up file i s s1
  pub others : (j : ℕ) → j ≢ i → Same j s s1
  pub dt_count : s1.dt_count ≡ suc s.dt_count
  pub relation : s1.relation ≡ s.relation
  pub recovery : s1.recovery_mode ≡ s.recovery_mode
  pub ids : (j : ℕ) → (s1.partner j).id ≡ (s.partner j).id

-- The stages of one round, with what the system gave: a socket, a descriptor and the bytes of a file.
abbrev linked : ℕ → ℕ → Daemon → Daemon
linked i sock s =
    let c : ClientConn = record {
      obj_state = ObjectState.in_use;
      sock_fd = sock;
      is_connected = true;
    } in
    let s1 : Daemon = record s { conn = update s.conn i c } in
    let s2 = set_partner i (record (s1.partner i) { socket_fd = (s1.conn i).sock_fd }) s1 in
    let r : Replication = record (s2.replication i) { rep_conn = true } in
    record s2 { replication = update s2.replication i r }

abbrev opened : ℕ → ℕ → Daemon → Daemon
opened i fd s =
    let d : TargetDisk = record (s.disk i) {
      obj_state = ObjectState.in_use;
      name = (s.disk i).name;
    } in
    let s1 : Daemon = record s { disk = update s.disk i d } in
    record s1 {
      disk = update s1.disk i (record (s1.disk i) { disk_fd = fd });
      dt_count = suc s1.dt_count;
    }

abbrev sized : ℕ → Daemon → Daemon
sized i s =
    let h : Header = record (s.hdr i) {
      grain_size = (s.relation i).grain_size;
      chunk_size = (s.relation i).chunk_size;
    } in
    set_hdr i h s

abbrev taken : ℕ → Bytes → Daemon → Daemon
taken i bytes s =
    let b : ClientBitmap = record (s.bitmap i) {
      bitmap_area = some (λ i. false);
      bitmap_size = user_bitmap_size;
    } in
    let s1 : Daemon = record s { bitmap = update s.bitmap i b } in
    let b1 : ClientBitmap = record (s1.bitmap i) { bitmap_area = some (bits_of bytes) } in
    let s2 : Daemon = record s1 { bitmap = update s1.bitmap i b1 } in
    let d : TargetDisk = record (s2.disk i) { has_bitmap = true } in
    record s2 {
      disk = update s2.disk i d;
      io = update s2.io i IoState.in_use;
      threads = (i, (s2.replication i).last_resynced_bit) ∷ s2.threads;
    }

otherwise : {A : Type 0} (b : Bool) (x y z : A) → b ≡ false → y ≡ z → (if b then x else y) ≡ z
otherwise true x y z b e = absurd (cc b)
otherwise false x y z b e = e

module _ {W : Type 0} (sys : System W) (works : Works sys) where
  disk_target_setup-opens :
      (i : ℕ) (t : Daemon) (w : W)
      → (fd : ℕ) × (w1 : W) × (disk_target_setup sys i t w ≡ (
        record t {
          disk = update t.disk i (record (t.disk i) { disk_fd = fd });
          dt_count = suc t.dt_count;
        },
        w1,
      ))
  unfolding disk_target_setup
  disk_target_setup-opens i t w =
      let (fd, w1, e) = works.open_file (t.disk i).name w in
      (
        fd,
        w1,
        ap
            (λ p. elim p.0 [
              | none ↦ (t, p.1)
              | some fd ↦ (
                record t {
                  disk = update t.disk i (record (t.disk i) { disk_fd = fd });
                  dt_count = suc t.dt_count;
                },
                p.1,
              )
            ])
            e,
      )

  reconnect-returns :
      (i : ℕ) (s : Daemon) (w : W)
      → i < max_partners
      → s.dt_count < max_partners
      → s.recovery_mode s.dt_count ≡ true
      → (sock fd : ℕ) × (w1 : W) × (reconnect sys i s w ≡ some (opened i fd (linked i sock s), w1))
  unfolding reconnect ebdr_conn_client_setup prepare_for_replication disk_target_create
  reconnect-returns i s w lt room on =
      let (sock, w1, e1) = works.socket w in
      let (w2, e2) = works.connect sock (s.partner i).ip w1 in
      let s3 = linked i sock s in
      let d : TargetDisk = record (s3.disk i) {
        obj_state = ObjectState.in_use;
        name = (s3.disk i).name;
      } in
      let (fd, w3, e3) = disk_target_setup-opens i (record s3 { disk = update s3.disk i d }) w2 in
      let there : ltb s.dt_count max_partners ≡ true = ground arith in
      (sock, fd, w3, rw (e1, e2, on, there) (ap some e3))

  take_up-returns :
      (i : ℕ) (s : Daemon) (w : W)
      → i < max_partners
      → (bytes : Bytes) × (w1 : W) × (take_up sys i s w ≡ some (taken i bytes s, w1))
        × ((k : ℕ) → k < user_bitmap_size → bytes k ≡ works.file (bitmap_file i) k)
  unfolding take_up bitmap_client_create resync_init
  take_up-returns i s w lt =
      let (w1, e1) = works.malloc user_bitmap_size w in
      let b : ClientBitmap = record (s.bitmap i) {
        bitmap_area = some (λ i. false);
        bitmap_size = user_bitmap_size;
      } in
      let s1 : Daemon = record s { bitmap = update s.bitmap i b } in
      let (bytes, w2, e2, same) =
        works.load_file (bitmap_file i) (s1.bitmap i).bitmap_size (bytes_of (λ i. false) 0) w1 in
      let size : (s1.bitmap i).bitmap_size ≡ user_bitmap_size = ground arith in
      let area : (s1.bitmap i).bitmap_area ≡ some (λ i. false) = ground arith in
      let there : ltb i max_partners ≡ true = ground arith in
      (
        bytes,
        w2,
        rw e1 (
            >>=-some _ (load_bitmap_from_disk-loads sys i s1 (λ i. false) bytes w1 w2 area e2)
            ∙ rw there refl),
        λ k lt. same k (omega (arith, size, lt)),
      )

  pub restart_partner-returns :
      (i : ℕ) (s : Daemon) (w : W)
      → i < max_partners
      → s.dt_count < max_partners
      → s.recovery_mode s.dt_count ≡ true
      → is_completed_state (s.replication i).rep_state ≡ false
      → (sock fd : ℕ) × (bytes : Bytes) × (w1 : W) × (restart_partner sys i s w
          ≡ some (taken i bytes (sized i (opened i fd (linked i sock s))), w1))
        × ((k : ℕ) → k < user_bitmap_size → bytes k ≡ works.file (bitmap_file i) k)
  unfolding restart_partner
  restart_partner-returns i s w lt room on unfinished =
      let there : ltb i max_partners ≡ true = ground arith in
      let (sock, fd, w1, e1) = reconnect-returns i s w lt room on in
      let (bytes, w2, e2, same) =
        take_up-returns i (sized i (opened i fd (linked i sock s))) w1 lt in
      let unfinished1 : is_completed_state
            (update s.replication i (record (s.replication i) { rep_conn = true }) i).rep_state
          ≡ false =
        rw (update_self s.replication i (record (s.replication i) { rep_conn = true }))
          unfinished in
      (sock, fd, bytes, w2, rw there (>>=-some _ e1 ∙ otherwise _ _ _ _ unfinished1 e2), same)

-- The bits of bytes that agree.
bits_of-same :
    (b c : Bytes) (n k : ℕ) → ((j : ℕ) → j < n → b j ≡ c j) → k < 8 * n → bits_of b k ≡ bits_of c k
bits_of-same b c n k same lt = ap (λ x. testbit x (k % 8)) (same (k / 8) (omega (arith, lt)))

raised :
    (file : List ℕ → Bytes) (i sock fd : ℕ) (bytes : Bytes) (s : Daemon)
    → ((k : ℕ) → k < user_bitmap_size → bytes k ≡ file (bitmap_file i) k)
    → Up file i s (taken i bytes (sized i (opened i fd (linked i sock s))))
raised file i sock fd bytes s same = record {
  connected = ground arith;
  sock = ground arith;
  grain = ground arith;
  chunk = ground arith;
  disk_name = ground arith;
  has_bitmap = ground arith;
  area = λ k lt.
      let area : ((taken i bytes (sized i (opened i fd (linked i sock s)))).bitmap i).bitmap_area
          ≡ some (bits_of bytes) =
        ground arith in
      ap (λ a. area_of a k) area
      ∙ bits_of-same bytes (file (bitmap_file i)) user_bitmap_size k same lt;
  size = ground arith;
  rep_conn = ground arith;
  rep_state = ground arith;
  bit = ground arith;
}

untouched :
    (i sock fd j : ℕ) (bytes : Bytes) (s : Daemon)
    → j ≢ i
    → Same j s (taken i bytes (sized i (opened i fd (linked i sock s))))
untouched i sock fd j bytes s ne = record {
  hdr = ground arith;
  disk = ground arith;
  conn = ground arith;
  partner = ground arith;
  replication = ground arith;
  bitmap = ground arith;
}

started :
    (file : List ℕ → Bytes) (i sock fd : ℕ) (bytes : Bytes) (s : Daemon)
    → ((k : ℕ) → k < user_bitmap_size → bytes k ≡ file (bitmap_file i) k)
    → Started file i s (taken i bytes (sized i (opened i fd (linked i sock s))))
started file i sock fd bytes s same = record {
  threads = ground arith;
  up = raised file i sock fd bytes s same;
  others = λ j ne. untouched i sock fd j bytes s ne;
  dt_count = refl;
  relation = refl;
  recovery = refl;
  ids = λ j. ground arith;
}

module _ {W : Type 0} (sys : System W) (works : Works sys) where
  -- A round returns.
  pub restart_partner-Started :
      (i : ℕ) (s : Daemon) (w : W)
      → i < max_partners
      → s.dt_count < max_partners
      → s.recovery_mode s.dt_count ≡ true
      → is_completed_state (s.replication i).rep_state ≡ false
      → (s1 : Daemon) × (w1 : W) × (restart_partner sys i s w ≡ some (s1, w1))
        × Started works.file i s s1
  restart_partner-Started i s w lt room on unfinished =
      let (sock, fd, bytes, w1, e, same) =
        restart_partner-returns sys works i s w lt room on unfinished in
      (_, w1, e, started works.file i sock fd bytes s same)

-- ===== src/User/Database/Restart/Resumed.antt =====
-- The loop of `db_init`, of user/atdr_linux/atdr_db.c, over the resynchronisations that were stored.
use greko.Base.{
  ℕ, zero, suc, ◌+◌, ◌≤◌, ◌<◌, ◌≡◌, refl, sym, ap, ◌∙◌, true, false, Option, some, List, ◌∷◌, arith,
  dec_lt, >>=-some,
}
use mathlib.Core.Path.{subst}
use greko.User.Server.{max_partners}
use greko.User.Types.{Bytes}
use greko.User.Client.{Daemon, System}
use greko.User.Client.Commands.{is_completed_state}
use greko.User.Client.Metadata.{area_of}
use greko.User.Database.{Sql}
use greko.User.Database.Restart.{restart_partner, restart_from, load_tables, db_init}
use greko.User.Database.Restart.Started.{Works, Up, Same, Started, restart_partner-Started}

-- The threads of the partners from `i` on, each from the bit that was stored for it, in front of others.
unfoldable pub resumed : Daemon → ℕ → ℕ → List (ℕ × ℕ) → List (ℕ × ℕ)
resumed s zero i before = before
resumed s (suc n) i before = resumed s n (suc i) ((i, (s.replication i).last_resynced_bit) ∷ before)

-- The `n` partners from `i` on wait to be taken up: each has its index for its id, is in recovery
-- mode, and its resynchronisation is not completed.
pub record Waiting (n i : ℕ) (s : Daemon) : Type 0 where
  pub own : (k : ℕ) → i ≤ k → k < i + n → (s.partner k).id ≡ k
  pub recovering : (k : ℕ) → i ≤ k → k < i + n → s.recovery_mode k ≡ true
  pub unfinished :
      (k : ℕ) → i ≤ k → k < i + n → is_completed_state (s.replication k).rep_state ≡ false
  pub count : s.dt_count ≡ i
  pub room : i + n ≤ max_partners

-- What a loop over them has done.
pub record Resumed (file : List ℕ → Bytes) (n i : ℕ) (s s' : Daemon) : Type 0 where
  pub threads : s'.threads ≡ resumed s n i s.threads
  pub up : (k : ℕ) → i ≤ k → k < i + n → Up file k s s'
  pub before : (k : ℕ) → k < i → Same k s s'
  pub after : (k : ℕ) → i + n ≤ k → Same k s s'

resumed-same :
    (s s1 : Daemon) (n i : ℕ) (before : List (ℕ × ℕ))
    → ((k : ℕ) → i ≤ k → s1.replication k ≡ s.replication k)
    → resumed s1 n i before ≡ resumed s n i before
unfolding resumed
resumed-same s s1 zero i before h = refl
resumed-same s s1 (suc n) i before h =
    ap (λ r. resumed s1 n (suc i) ((i, r.last_resynced_bit) ∷ before)) (h i (omega arith))
    ∙ resumed-same s s1 n (suc i) _ (λ k le. h k (omega (arith, le)))

next-Waiting :
    (file : List ℕ → Bytes) (n i : ℕ) (s s1 : Daemon)
    → Waiting (suc n) i s
    → Started file i s s1
    → Waiting n (suc i) s1
next-Waiting file n i s s1 w d = record {
  own = λ k le lt. d.ids k ∙ w.own k (omega (arith, le)) (omega (arith, lt));
  recovering =
      λ k le lt. ap (λ f. f k) d.recovery ∙ w.recovering k (omega (arith, le)) (omega (arith, lt));
  unfinished = λ k le lt.
      ap (λ r. is_completed_state r.rep_state)
        (d.others k (λ e. absurd (omega (arith, e, le)))).replication
      ∙ w.unfinished k (omega (arith, le)) (omega (arith, lt));
  count = d.dt_count ∙ ap suc w.count;
  room = let r = w.room in omega (arith, r);
}

Same-refl : (j : ℕ) (s : Daemon) → Same j s s
Same-refl j s = record {
  hdr = refl;
  disk = refl;
  conn = refl;
  partner = refl;
  replication = refl;
  bitmap = refl;
}

Same-trans : (j : ℕ) (s s1 s2 : Daemon) → Same j s s1 → Same j s1 s2 → Same j s s2
Same-trans j s s1 s2 a b = record {
  hdr = b.hdr ∙ a.hdr;
  disk = b.disk ∙ a.disk;
  conn = b.conn ∙ a.conn;
  partner = b.partner ∙ a.partner;
  replication = b.replication ∙ a.replication;
  bitmap = b.bitmap ∙ a.bitmap;
}

-- An entry that was taken up, and then left alone.
Up-Same :
    (file : List ℕ → Bytes) (j : ℕ) (s s1 s2 : Daemon)
    → Up file j s s1
    → Same j s1 s2
    → Up file j s s2
Up-Same file j s s1 s2 u e = record {
  connected = ap (λ c. c.is_connected) e.conn ∙ u.connected;
  sock = ap (λ p. p.socket_fd) e.partner ∙ u.sock ∙ ap (λ c. c.sock_fd) (sym e.conn);
  grain = ap (λ h. h.grain_size) e.hdr ∙ u.grain;
  chunk = ap (λ h. h.chunk_size) e.hdr ∙ u.chunk;
  disk_name = ap (λ d. d.name) e.disk ∙ u.disk_name;
  has_bitmap = ap (λ d. d.has_bitmap) e.disk ∙ u.has_bitmap;
  area = λ k lt. ap (λ b. area_of b.bitmap_area k) e.bitmap ∙ u.area k lt;
  size = ap (λ b. b.bitmap_size) e.bitmap ∙ u.size;
  rep_conn = ap (λ r. r.rep_conn) e.replication ∙ u.rep_conn;
  rep_state = ap (λ r. r.rep_state) e.replication ∙ u.rep_state;
  bit = ap (λ r. r.last_resynced_bit) e.replication ∙ u.bit;
}

-- An entry that was left alone, and then taken up.
Same-Up :
    (file : List ℕ → Bytes) (j : ℕ) (s s1 s2 : Daemon)
    → s1.relation ≡ s.relation
    → Same j s s1
    → Up file j s1 s2
    → Up file j s s2
Same-Up file j s s1 s2 r e u = record {
  connected = u.connected;
  sock = u.sock;
  grain = u.grain ∙ ap (λ f. (f j).grain_size) r;
  chunk = u.chunk ∙ ap (λ f. (f j).chunk_size) r;
  disk_name = u.disk_name ∙ ap (λ d. d.name) e.disk;
  has_bitmap = u.has_bitmap;
  area = u.area;
  size = u.size;
  rep_conn = u.rep_conn;
  rep_state = u.rep_state ∙ ap (λ r. r.rep_state) e.replication;
  bit = u.bit ∙ ap (λ r. r.last_resynced_bit) e.replication;
}

next-Resumed :
    (file : List ℕ → Bytes) (n i : ℕ) (s s1 s2 : Daemon)
    → Started file i s s1
    → Resumed file n (suc i) s1 s2
    → Resumed file (suc n) i s s2
unfolding resumed
next-Resumed file n i s s1 s2 d r = record {
  threads =
      r.threads
      ∙ ap (resumed s1 n (suc i)) d.threads
      ∙ resumed-same s s1 n (suc i) _
          (λ k le. (d.others k (λ e. absurd (omega (arith, e, le)))).replication);
  up = λ k le lt. elim (dec_lt i k) [
    | yes later ↦
        Same-Up file k s s1 s2 d.relation (d.others k (λ e. absurd (omega (arith, e, later))))
          (r.up k (omega (arith, later)) (omega (arith, lt)))
    | no here ↦
        let same : i ≡ k = omega (arith, here, le) in
        subst (λ j. Up file j s s2) same (Up-Same file i s s1 s2 d.up (r.before i (omega arith)))
  ];
  before = λ k lt.
      Same-trans k s s1 s2 (d.others k (λ e. absurd (omega (arith, e, lt))))
        (r.before k (omega (arith, lt)));
  after = λ k le.
      Same-trans k s s1 s2 (d.others k (λ e. absurd (omega (arith, e, le))))
        (r.after k (omega (arith, le)));
}

module _ {W : Type 0} (sys : System W) (works : Works sys) where
  restart_from-Resumed :
      (n i : ℕ) (s : Daemon) (w : W)
      → Waiting n i s
      → (s' : Daemon) × (w' : W) × (restart_from sys n i s w ≡ some (s', w'))
        × Resumed works.file n i s s'
  unfolding restart_from resumed
  restart_from-Resumed zero i s w h = (
    s,
    w,
    refl,
    record {
      threads = refl;
      up = λ k le lt. absurd (omega (arith, le, lt));
      before = λ k lt. Same-refl k s;
      after = λ k le. Same-refl k s;
    },
  )
  restart_from-Resumed (suc n) i s w h =
      let here : (s.partner i).id ≡ i = h.own i (omega arith) (omega arith) in
      let room = h.room in
      let count = h.count in
      let on : s.recovery_mode s.dt_count ≡ true =
        ap s.recovery_mode count ∙ h.recovering i (omega arith) (omega arith) in
      let (s1, w1, e1, d) =
        restart_partner-Started sys works i s w (omega (arith, room)) (omega (arith, room, count))
          on (h.unfinished i (omega arith) (omega arith)) in
      let (s2, w2, e2, r) =
        restart_from-Resumed n (suc i) s1 w1 (next-Waiting works.file n i s s1 h d) in
      (
        s2,
        w2,
        >>=-some _ (ap (λ p. restart_partner sys p s w) here ∙ e1) ∙ e2,
        next-Resumed works.file n i s s1 s2 d r,
      )

  -- When the tables are read and `n` resynchronisations are found there, of the partners with the
  -- ids 0 to `n - 1`, each in the entry of its id, in recovery mode and not completed, and no disk
  -- was set up before, the daemon's start comes to its end on a system whose calls succeed and
  -- whose files do not change meanwhile. Then a thread was created for each of them, in the order
  -- of the ids, from the bit that was stored last; each is connected, with the socket of its
  -- connection, the grain and chunk sizes of its relation in its header, the name of its disk as it
  -- was read and the bits of its bitmap file, and its replication's state and bit are those that
  -- were read; every other entry is as it was read.
  pub db_init-resumes :
      {D : Type 0} (sql : Sql D) (connect : D → Option D) (db_name : List ℕ) (s s1 : Daemon)
      (d d1 : D) (w : W) (n : ℕ)
      → load_tables sql connect db_name s d ≡ some (n, s1, d1)
      → Waiting n 0 s1
      → (s2 : Daemon) × (w2 : W) × (db_init sys sql connect db_name s d w ≡ some (s2, d1, w2))
        × Resumed works.file n 0 s1 s2
  unfolding db_init
  db_init-resumes sql connect db_name s s1 d d1 w n read waiting =
      let (s2, w2, e, r) = restart_from-Resumed n 0 s1 w waiting in
      (s2, w2, >>=-some _ read ∙ >>=-some _ e, r)

-- ===== src/User/Client/Recovery/Pass.antt =====
-- What one pass of the recovery thread of user/atdr_linux/atdr_recovery.c leaves.
use greko.Base.{
  ℕ, zero, suc, ◌+◌, ◌≤◌, ◌<◌, ◌≡◌, refl, ap, ◌∙◌, Bool, true, false, ◌&&◌, Option, some, List, ◌∷◌,
  ltb, leb, if_holds, ◌==◌, ==_cases, inl, inr, if◌then◌else◌, arith, bind_gives,
}
use greko.User.Types.{ObjectState}
use greko.User.Server.{max_partners}
use greko.User.Client.{Daemon, System}
use greko.User.Client.Metadata.{is_paused_object}
use greko.User.Client.Commands.{resync_init}
use greko.User.Client.Recovery.{
  recovery_disk_client, recovery_conn_client, recovery_pass, recovery_thread,
}

-- What an object's state becomes.
abbrev pub resumed : ObjectState → ObjectState
resumed ObjectState.pause = ObjectState.resume
resumed o = o

abbrev pub thread_if : Bool → ℕ × ℕ → List (ℕ × ℕ) → List (ℕ × ℕ)
thread_if b t l = if b then t ∷ l else l

-- The threads that are started for a partner id: one for its disk and one for its connection.
abbrev pub restarts : Daemon → ℕ → List (ℕ × ℕ) → List (ℕ × ℕ)
restarts s i l =
    let t : ℕ × ℕ = (i, (s.replication i).last_resynced_bit) in
    thread_if (is_paused_object (s.conn i).obj_state) t
      (thread_if (is_paused_object (s.disk i).obj_state) t l)

-- Those of `n` partner ids from `i` on.
pub due : (ℕ → List (ℕ × ℕ) → List (ℕ × ℕ)) → ℕ → ℕ → List (ℕ × ℕ) → List (ℕ × ℕ)
due f zero i l = l
due f (suc n) i l = due f n (suc i) (f i l)

due_ext :
    (f g : ℕ → List (ℕ × ℕ) → List (ℕ × ℕ)) (n i : ℕ) (l : List (ℕ × ℕ))
    → ((j : ℕ) (k : List (ℕ × ℕ)) → i ≤ j → f j k ≡ g j k)
    → due f n i l ≡ due g n i l
unfolding due
due_ext f g zero i l h = refl
due_ext f g (suc n) i l h =
    ap (due f n (suc i)) (h i l (omega arith))
    ∙ due_ext f g n (suc i) (g i l) (λ j k lt. h j k (omega arith))

-- One place more at the front of a range.
extend :
    (n pid j : ℕ) (o x y : ObjectState)
    → y ≡ (if leb (suc pid) j && ltb j (suc pid + n) then resumed x else x)
    → x ≡ (if j == pid then resumed o else o)
    → y ≡ (if leb pid j && ltb j (pid + suc n) then resumed o else o)
extend n pid j o x y e f = elim (==_cases j pid) [
  | inl same ↦ grind arith
  | inr other ↦ grind arith
]

-- What a pass over `n` partner ids from `pid` on makes of the tables.
pub record Passed (n pid : ℕ) (s t : Daemon) : Type 0 where
  pub disks :
      (j : ℕ)
      → (t.disk j).obj_state ≡ (
          if leb pid j && ltb j (pid + n)
          then resumed (s.disk j).obj_state
          else (s.disk j).obj_state)
  pub conns :
      (j : ℕ)
      → (t.conn j).obj_state ≡ (
          if leb pid j && ltb j (pid + n)
          then resumed (s.conn j).obj_state
          else (s.conn j).obj_state)
  pub started : t.threads ≡ due (restarts s) n pid s.threads

module _ {W : Type 0} (sys : System W) where
  recovery_disk_client-disk :
      (i pid : ℕ) (s : Daemon) (w : W) (t : Daemon) (w1 : W)
      → recovery_disk_client sys i pid s w ≡ some (t, w1)
      → (j : ℕ)
      → (t.disk j).obj_state
        ≡ (if j == pid then resumed (s.disk j).obj_state else (s.disk j).obj_state)
  unfolding recovery_disk_client resync_init
  recovery_disk_client-disk i pid s w t w1 e j = grind arith

  recovery_disk_client-rest :
      (i pid : ℕ) (s : Daemon) (w : W) (t : Daemon) (w1 : W)
      → recovery_disk_client sys i pid s w ≡ some (t, w1)
      → (t.conn ≡ s.conn)
        × (t.replication ≡ s.replication)
        × (t.threads
            ≡ thread_if
                (is_paused_object (s.disk pid).obj_state)
                (pid, (s.replication pid).last_resynced_bit)
                s.threads)
  unfolding recovery_disk_client resync_init
  recovery_disk_client-rest i pid s w t w1 e = (grind arith, grind arith, grind arith)

  recovery_conn_client-conn :
      (pid : ℕ) (s : Daemon) (w : W) (t : Daemon) (w1 : W)
      → recovery_conn_client sys pid s w ≡ some (t, w1)
      → (j : ℕ)
      → (t.conn j).obj_state
        ≡ (if j == pid then resumed (s.conn j).obj_state else (s.conn j).obj_state)
  unfolding recovery_conn_client resync_init
  recovery_conn_client-conn pid s w t w1 e j = grind arith

  recovery_conn_client-rest :
      (pid : ℕ) (s : Daemon) (w : W) (t : Daemon) (w1 : W)
      → recovery_conn_client sys pid s w ≡ some (t, w1)
      → (t.disk ≡ s.disk)
        × (t.replication ≡ s.replication)
        × (t.threads
            ≡ thread_if
                (is_paused_object (s.conn pid).obj_state)
                (pid, (s.replication pid).last_resynced_bit)
                s.threads)
  unfolding recovery_conn_client resync_init
  recovery_conn_client-rest pid s w t w1 e = (grind arith, grind arith, grind arith)

  -- The two steps for a partner id.
  one-threads :
      (i pid : ℕ) (s : Daemon) (w : W) (a : Daemon) (b : W) (c : Daemon) (d : W)
      → recovery_disk_client sys i pid s w ≡ some (a, b)
      → recovery_conn_client sys pid a b ≡ some (c, d)
      → c.threads ≡ restarts s pid s.threads
  one-threads i pid s w a b c d e f =
      let (same_conn, same_rep, threads) = recovery_disk_client-rest i pid s w a b e in
      let (same_disk, rep2, threads2) = recovery_conn_client-rest pid a b c d f in
      rw (threads2, same_conn, same_rep, threads) refl

  one-states :
      (i pid : ℕ) (s : Daemon) (w : W) (a : Daemon) (b : W) (c : Daemon) (d : W)
      → recovery_disk_client sys i pid s w ≡ some (a, b)
      → recovery_conn_client sys pid a b ≡ some (c, d)
      → (j : ℕ)
      → ((c.disk j).obj_state
          ≡ (if j == pid then resumed (s.disk j).obj_state else (s.disk j).obj_state))
        × ((c.conn j).obj_state
            ≡ (if j == pid then resumed (s.conn j).obj_state else (s.conn j).obj_state))
        × (c.replication ≡ s.replication)
  one-states i pid s w a b c d e f j =
      let (same_conn, same_rep, threads) = recovery_disk_client-rest i pid s w a b e in
      let (same_disk, rep2, threads2) = recovery_conn_client-rest pid a b c d f in
      (
        ap (λ x. (x j).obj_state) same_disk ∙ recovery_disk_client-disk i pid s w a b e j,
        recovery_conn_client-conn pid a b c d f j
            ∙ ap (λ x. if j == pid then resumed (x j).obj_state else (x j).obj_state) same_conn,
        rep2 ∙ same_rep,
      )

  one-later :
      (i pid : ℕ) (s : Daemon) (w : W) (a : Daemon) (b : W) (c : Daemon) (d : W)
      → recovery_disk_client sys i pid s w ≡ some (a, b)
      → recovery_conn_client sys pid a b ≡ some (c, d)
      → (j : ℕ) (k : List (ℕ × ℕ)) → suc pid ≤ j
      → restarts c j k ≡ restarts s j k
  one-later i pid s w a b c d e f j k lt =
      let (disk, conn, rep) = one-states i pid s w a b c d e f j in
      let apart : (j == pid) ≡ false = ground arith in
      let conn1 : (c.conn j).obj_state ≡ (s.conn j).obj_state = conn ∙ rw apart refl in
      let disk1 : (c.disk j).obj_state ≡ (s.disk j).obj_state = disk ∙ rw apart refl in
      rw (conn1, disk1, rep) refl

  pub recovery_pass-Passed :
      (index : ℕ → ℕ) (n pid : ℕ) (s : Daemon) (w : W) (t : Daemon) (w1 : W)
      → recovery_pass sys index n pid s w ≡ some (t, w1)
      → Passed n pid s t
  unfolding recovery_pass due
  recovery_pass-Passed index zero pid s w t w1 =
      λ e. record { disks = λ j. grind arith; conns = λ j. grind arith; started = grind arith }
  recovery_pass-Passed index (suc n) pid s w t w1 =
      bind_gives (recovery_disk_client sys (index pid) pid s w) _ (λ (a, b) e1.
        bind_gives (recovery_conn_client sys pid a b) _ (λ (c, d) e2 e3.
          let rest = recovery_pass-Passed index n (suc pid) c d t w1 e3 in
          let states = one-states (index pid) pid s w a b c d e1 e2 in
          record {
            disks = λ j. extend n pid j _ _ _ (rest.disks j) (states j).0;
            conns = λ j. extend n pid j _ _ _ (rest.conns j) (states j).1;
            started =
                rest.started
                ∙ ap (due (restarts c) n (suc pid)) (one-threads (index pid) pid s w a b c d e1 e2)
                ∙ due_ext (restarts c) (restarts s) n (suc pid) _
                    (one-later (index pid) pid s w a b c d e1 e2);
          }))

  -- The calls that a recovery makes succeed.
  pub record Working : Type 0 where
    pub close_works : (fd : ℕ) (w : W) → (sys.close fd w).0 ≡ true
    pub open_works : (name : List ℕ) (w : W) → (fd : ℕ) × ((sys.open_file name w).0 ≡ some fd)
    pub socket_works : (w : W) → (fd : ℕ) × ((sys.socket w).0 ≡ some fd)
    pub connect_works : (fd : ℕ) (ip : List ℕ) (w : W) → (sys.connect fd ip w).0 ≡ true

  abbrev Returns : Option (Daemon × W) → Type 0
  Returns x = (t : Daemon) × (w1 : W) × (x ≡ some (t, w1))

  recovery_disk_client-Returns :
      (up : Working) (i pid : ℕ) (s : Daemon) (w : W)
      → i < max_partners
      → pid < max_partners
      → Returns (recovery_disk_client sys i pid s w)
  unfolding recovery_disk_client resync_init
  recovery_disk_client-Returns up i pid s w li lp =
      let closed = up.close_works (s.disk pid).disk_fd w in
      let (fd, opened) = up.open_works (s.disk i).name (sys.close (s.disk pid).disk_fd w).1 in
      let named : ltb i max_partners ≡ true = ground arith in
      let placed : ltb pid max_partners ≡ true = ground arith in
      if_holds Returns (is_paused_object (s.disk pid).obj_state) _ _
        (λ p. rw (closed, named, opened, placed) (_, _, refl)) (λ p. (s, w, refl))

  recovery_conn_client-Returns :
      (up : Working) (pid : ℕ) (s : Daemon) (w : W)
      → pid < max_partners
      → Returns (recovery_conn_client sys pid s w)
  unfolding recovery_conn_client resync_init
  recovery_conn_client-Returns up pid s w lp =
      let (sock, made) = up.socket_works w in
      let connected = up.connect_works sock (s.partner pid).ip (sys.socket w).1 in
      let placed : ltb pid max_partners ≡ true = ground arith in
      if_holds Returns (is_paused_object (s.conn pid).obj_state) _ _
        (λ p. rw (made, connected, placed) (_, _, refl)) (λ p. (s, w, refl))

  recovery_pass-Returns :
      (up : Working) (index : ℕ → ℕ) (n pid : ℕ) (s : Daemon) (w : W)
      → ((j : ℕ) → index j < max_partners)
      → pid + n ≤ max_partners
      → Returns (recovery_pass sys index n pid s w)
  unfolding recovery_pass
  recovery_pass-Returns up index zero pid s w h le = (s, w, refl)
  recovery_pass-Returns up index (suc n) pid s w h le =
      let (a, b, e) = recovery_disk_client-Returns up (index pid) pid s w (h pid) (omega arith) in
      let (c, d, f) = recovery_conn_client-Returns up pid a b (omega arith) in
      let (t, w1, g) = recovery_pass-Returns up index n (suc pid) c d h (omega arith) in
      (t, w1, rw (e, f) g)

  -- When the calls of the system succeed and the index that the opening of a disk uses is one of
  -- the tables, a pass of the recovery thread comes to its end, and then every disk and connection
  -- of the tables that was paused is resumed, the others are in the state they were in, and the
  -- threads that were started are, for each partner id in turn, one for a paused disk and one for a
  -- paused connection, each at the bit last resynchronised.
  pub recovery_thread-resumes :
      (up : Working) (index : ℕ → ℕ) (s : Daemon) (w : W)
      → ((j : ℕ) → index j < max_partners)
      → (t : Daemon) × (w1 : W) × (recovery_thread sys index s w ≡ some (t, w1))
        × Passed max_partners 0 s t
  unfolding recovery_thread
  recovery_thread-resumes up index s w h =
      let (t, w1, e) = recovery_pass-Returns up index max_partners 0 s w h (omega arith) in
      (t, w1, e, recovery_pass-Passed index max_partners 0 s w t w1 e)

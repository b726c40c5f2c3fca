-- ===== src/User/Client/Recovery.antt =====
-- The recovery thread of the client daemon, user/atdr_linux/atdr_recovery.c as it is built with CLIENT: a
-- disk or a connection that was paused by a failure is opened again, and its resynchronisation started.
pub mod Pass
use greko.Base.{
  ℕ, zero, suc, Bool, true, false, Option, none, some, List, ltb, if◌then◌else◌, update, ◌>>=◌,
  ◌>>◌, require,
}
use greko.User.Types.{ObjectState}
use greko.User.Server.{max_partners}
use greko.User.Client.{Daemon, System, TargetDisk, ClientConn}
use greko.User.Client.Metadata.{is_paused_object}
use greko.User.Client.Commands.{resync_init}

-- `restart_disk`
pub restart_disk : ℕ → Daemon → Option Daemon
restart_disk pid s =
    let d : TargetDisk = record (s.disk pid) { obj_state = ObjectState.resume } in
    resync_init pid (s.replication pid).last_resynced_bit (record s { disk = update s.disk pid d })

module _ {W : Type 0} (sys : System W) where
  -- `create_new_conn_client`, which leaves the connection in the state EBDR_CONN_SETUP.
  pub create_new_conn_client : ℕ → List ℕ → Daemon → W → Option (Daemon × W)
  create_new_conn_client pid ip s w = do
    let (fd, w1) = sys.socket w
    sock ← fd
    let (connected, w2) = sys.connect sock ip w1
    require connected
    let c : ClientConn = record {
      obj_state = ObjectState.in_use;
      sock_fd = sock;
      is_connected = false;
    }
    some (record s { conn = update s.conn pid c }, w2)

  -- `restart_conn_client`
  pub restart_conn_client : ℕ → Daemon → W → Option (Daemon × W)
  unfolding create_new_conn_client
  restart_conn_client pid s w = do
    (s1, w1) ← create_new_conn_client pid (s.partner pid).ip s w
    let c : ClientConn = record (s1.conn pid) { obj_state = ObjectState.resume }
    let s2 : Daemon = record s1 {
      conn = update s1.conn pid c;
      partner = update s1.partner pid (record (s1.partner pid) { socket_fd = c.sock_fd });
    }
    s3 ← resync_init pid (s2.replication pid).last_resynced_bit s2
    some (s3, w1)

  -- `recovery_disk_client`; `i` is what the uninitialised index holds that names the disk to open.
  pub recovery_disk_client : ℕ → ℕ → Daemon → W → Option (Daemon × W)
  unfolding restart_disk
  recovery_disk_client i pid s w =
      let (closed, w1) = sys.close (s.disk pid).disk_fd w in
      let (fd, w2) = sys.open_file (s.disk i).name w1 in
      let restarted : Option (Daemon × W) = (do
        require closed
        require (ltb i max_partners)
        fd ← fd
        let d : TargetDisk = record (s.disk pid) { disk_fd = fd }
        s1 ← restart_disk pid (record s { disk = update s.disk pid d })
        some (s1, w2)) in
      if is_paused_object (s.disk pid).obj_state then restarted else some (s, w)

  -- `recovery_conn_client`
  pub recovery_conn_client : ℕ → Daemon → W → Option (Daemon × W)
  unfolding restart_conn_client
  recovery_conn_client pid s w =
      let restarted = restart_conn_client pid s w in
      if is_paused_object (s.conn pid).obj_state then restarted else some (s, w)

  -- One pass of `recovery_thread_init` over the `n` partner ids from `pid` on; `index` gives what the
  -- uninitialised index holds in the call for a partner id.
  pub recovery_pass : (ℕ → ℕ) → ℕ → ℕ → Daemon → W → Option (Daemon × W)
  recovery_pass index zero pid s w = some (s, w)
  recovery_pass index (suc n) pid s w = do
    (s1, w1) ← recovery_disk_client (index pid) pid s w
    (s2, w2) ← recovery_conn_client pid s1 w1
    recovery_pass index n (suc pid) s2 w2

  -- What is looked through every ten seconds.
  pub recovery_thread : (ℕ → ℕ) → Daemon → W → Option (Daemon × W)
  unfolding recovery_pass recovery_disk_client recovery_conn_client
  recovery_thread index s w = recovery_pass index max_partners 0 s w

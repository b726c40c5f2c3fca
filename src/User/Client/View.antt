-- ===== src/User/Client/View.antt =====
-- The resynchronisation thread of one partner id, `resync_handler` of atdr_daemon.c, and its part of
-- the client's tables.
use greko.Base.{ℕ, [], some, ◌++◌, map, if◌then◌else◌, update}
use greko.User.Types.{Bytes, RepMode}
use greko.User.Posix.{Posix}
use greko.User.Resync.{Client, Ending, descriptor, restart_resync, replication_terminate}
use greko.User.Client.{Daemon, of_resync}

-- The entries of `pid` in the tables.
abbrev pub view : ℕ → Daemon → Client
view pid s = record {
  hdr = s.hdr pid;
  partner = (s.partner pid).obj_state;
  relation = (s.relation pid).obj_state;
  disk = (s.disk pid).obj_state;
  io = s.io pid;
  conn = (s.conn pid).obj_state;
  rep_state = (s.replication pid).rep_state;
  last_resynced_bit = (s.replication pid).last_resynced_bit;
  recovery_mode = s.recovery_mode pid;
  socket_fd = some (s.partner pid).socket_fd;
  disk_fd = (s.disk pid).disk_fd;
  bitmap_area = (s.bitmap pid).bitmap_area;
  bitmap_size = (s.bitmap pid).bitmap_size;
  db = [];
}

abbrev pub put : ℕ → Client → Daemon → Daemon
put pid c s = record s {
  hdr = update s.hdr pid c.hdr;
  partner =
      update s.partner pid
        (record (s.partner pid) { obj_state = c.partner; socket_fd = descriptor c.socket_fd });
  relation = update s.relation pid (record (s.relation pid) { obj_state = c.relation });
  disk = update s.disk pid (record (s.disk pid) { obj_state = c.disk });
  io = update s.io pid c.io;
  conn = update s.conn pid (record (s.conn pid) { obj_state = c.conn });
  replication = update s.replication pid (record (s.replication pid) {
    rep_state = c.rep_state;
    last_resynced_bit = c.last_resynced_bit;
  });
  recovery_mode = update s.recovery_mode pid c.recovery_mode;
  bitmap = update s.bitmap pid (record (s.bitmap pid) { bitmap_area = c.bitmap_area });
  db = map (of_resync pid) c.db ++ s.db;
}

module _ {W : Type 0} (ops : Posix W) where
  -- `restart_resync` on the tables; a target disk without a bitmap is a NULL pointer.
  unfoldable pub restart_at : ℕ → ℕ → RepMode → Bytes → Daemon → W → Ending × Daemon × W
  restart_at pid bit_pos mode buff s w =
      let (e, c, w1) = restart_resync ops pid bit_pos mode buff (view pid s) w in
      if (s.disk pid).has_bitmap then (e, put pid c s, w1) else (Ending.trapped, s, w)

  -- `resync_handler`; `buff` is what the uninitialised buffer holds.
  pub resync_handler : ℕ → ℕ → Bytes → Daemon → W → Ending × Daemon × W
  unfolding restart_at
  resync_handler pid bit_pos buff s w = restart_at pid bit_pos RepMode.no_resync buff s w

  -- `replication_terminate` on the tables.
  unfoldable pub terminate_at : ℕ → Daemon → W → Daemon × W
  terminate_at pid s w =
      let (c, w1) = replication_terminate ops pid (view pid s) w in (put pid c s, w1)

-- ===== src/User/Server/Accept.antt =====
-- The accepting thread of the server daemon, `replic_thread_init` of
-- user/atdr_linux/atdr_conn_server.c: the partners are read from the database at every connection,
-- and the connection is given to one of them.
pub mod Regained
use greko.Base.{
  ℕ, zero, suc, ◌+◌, Bool, true, false, ◌&&◌, not, Option, none, some, List, ◌∷◌, ltb, leb, ◌==◌,
  if◌then◌else◌, update, ◌>>=◌, ◌>>◌, require,
}
use greko.User.Types.{PartnerState, ObjectState}
use greko.User.Server.{Server, Partner, Conn, max_partners, accept_slot}
use greko.User.Database.{Sql}
use greko.User.Database.Rows.{retrieve_from_partner}
use greko.User.Client.Metadata.{is_paused_object}

-- The server's tables, `client_connected`, the pids of `sockfd_pid_var`, which start as 0, and the
-- threads that were created: each has the pid and the socket that it was given.
pub record Accepting : Type 0 where
  pub server : Server
  pub client_connected : Bool
  pub slot_pid : ℕ → ℕ
  pub threads : List (ℕ × ℕ)

abbrev pub is_partner_in_use : PartnerState → Bool
is_partner_in_use PartnerState.in_use = true
is_partner_in_use _ = false

-- The connection that was accepted goes to a partner that waits for its own.
unfoldable pub resume_conn : ℕ → ℕ → Accepting → Accepting
resume_conn pid fd a =
    let s = a.server in
    let c : Conn = record (s.conn accept_slot) { obj_state = ObjectState.resume } in
    record a {
      server = record s {
        conn = update s.conn pid c;
        partner = update s.partner pid (record (s.partner pid) { socket_fd = fd });
        sock_recovery = update s.sock_recovery pid false;
        total_conn = suc s.total_conn;
      };
      slot_pid = update a.slot_pid pid pid;
    }

-- It goes to a partner that was read from the database when the daemon started.
unfoldable pub recover_conn : ℕ → ℕ → Accepting → Accepting
recover_conn pid fd a =
    let s = a.server in
    let p : Partner = record (s.partner pid) {
      socket_fd = fd;
      obj_state = PartnerState.recovery;
    } in
    record a {
      server = record s {
        conn = update s.conn pid (s.conn accept_slot);
        partner = update s.partner pid p;
        total_conn = suc s.total_conn;
      };
      slot_pid = update a.slot_pid pid pid;
      client_connected = false;
    }

-- It goes to a new partner, whose entry of `sockfd_pid_var` is not written.
unfoldable pub create_conn : ℕ → Accepting → Accepting
create_conn pid a =
    let s = a.server in
    record a {
      server = record s {
        partner_created = update s.partner_created pid true;
        total_conn = suc s.total_conn;
      };
    }

-- The three tests of a partner id: whether it waits for its connection, or for one after a restart, or
-- was not created.
abbrev pub is_waiting : ℕ → Accepting → Bool
is_waiting pid a = is_paused_object (a.server.conn pid).obj_state && a.server.sock_recovery pid

abbrev pub is_recovering : ℕ → Accepting → Bool
is_recovering pid a =
    a.client_connected
    && (a.server.recovery_mode pid && is_partner_in_use (a.server.partner pid).obj_state)

-- The loop over the `n` partner ids from `pid` on, with the partner id that it ends at; `rows` is
-- the number of partners in the database.
unfoldable pub choose_pid : ℕ → ℕ → ℕ → ℕ → Accepting → Option (ℕ × Accepting)
choose_pid zero pid rows fd a = some (pid, a)
choose_pid (suc n) pid rows fd a =
    let later = choose_pid n (suc pid) rows fd a in
    if not (ltb pid max_partners)
    then none
    else if is_waiting pid a
    then some (pid, resume_conn pid fd a)
    else if is_recovering pid a
    then some (pid, recover_conn pid fd a)
    else if leb rows a.server.total_conn
    then some (pid, a)
    else if not (a.server.partner_created pid)
    then some (pid, create_conn pid a)
    else later

-- What is done before the partner id is chosen: the socket, and the partners of the database.
abbrev pub connected : ℕ → (ℕ → Partner) → Accepting → Accepting
connected fd partner a =
    let s = a.server in
    let c : Conn = record (s.conn accept_slot) { conn_fd = some fd } in
    record a {
      server = record s { conn = update s.conn accept_slot c; partner = partner };
      client_connected = true;
    }

-- With no partner in the database, the first one is made.
unfoldable pub first_conn : Accepting → Accepting
first_conn a =
    let s = a.server in
    record a {
      server = record s { partner_created = update s.partner_created 0 true };
      slot_pid = update a.slot_pid 0 0;
    }

module _ {D : Type 0} (sql : Sql D) where
  -- One round of `replic_thread_init`, for a socket that `accept` gave.
  unfoldable pub accept_client : ℕ → Accepting → D → Option (Accepting × D)
  accept_client fd a d = do
    (rows, partner, d1) ← retrieve_from_partner sql a.server.partner d
    let a1 = connected fd partner a
    let chosen = choose_pid (suc rows) 0 rows fd a1
    (pid, a2) ← if rows == 0 then some (0, first_conn a1) else chosen
    require (ltb pid max_partners)
    some (record a2 { threads = (a2.slot_pid pid, fd) ∷ a2.threads }, d1)

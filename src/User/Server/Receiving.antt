-- ===== src/User/Server/Receiving.antt =====
-- The receiving thread of one client in the server daemon: `ebdr_conn_server_recv` and
-- `send_recv_handler` of atdr_conn_server.c, and the handler `verify_data` of replic_server.c, of
-- user/atdr_linux.
pub mod Ending
use greko.Base.{
  ℕ, zero, suc, Bool, true, false, Option, none, some, List, [], ◌∷◌, ◌==◌, ltb, if◌then◌else◌,
  update, ◌>>=◌, ◌>>◌, require,
}
use greko.Kernel.Device.{Answers}
use greko.User.Types.{Header, Opcode, ObjectState}
use greko.User.Posix.{Posix, header}
use greko.User.Server.{Server, Conn, descriptor_of, max_partners}
use greko.User.Server.Handlers.{dispatch}

-- What `recv` of a header gives: an error, 0 for a peer that has closed its end, or a header.
pub data Received : Type 0 where
  failed closed : Received
  got : Header → Received

-- How the thread is left: it has returned, the process has stopped, or it runs on.
pub data Leaving (W : Type 0) : Type 0 where
  returned : Server → W → Leaving W
  stopped : Leaving W
  running : Header → Server → W → Leaving W

-- Whether an MD5 text is empty.
abbrev pub is_empty_text : List ℕ → Bool
is_empty_text [] = true
is_empty_text (c ∷ cs) = c == 0

abbrev pub verify_opcode : Option (List ℕ) → Header → Header
verify_opcode none h = record h { opcode = Opcode.verify_data_ign }
verify_opcode (some md5) h =
    let h1 : Header = record h { md5 = md5 } in
    if is_empty_text md5
    then record h1 { opcode = Opcode.verify_data_ign }
    else record h1 { opcode = Opcode.verify_data_rsp }

module _ {W : Type 0} (ops : Posix W) where
  -- `verify_data`; `md5sum` is `calculate_md5` on the snapshot of the header's partner, none its -1.
  unfoldable pub verify_data :
      (Header → W → Option (List ℕ) × W) → Header → Server → W → Option (Header × Server × W)
  verify_data md5sum h0 s w = do
    let (md5, w1) = md5sum h0 w
    let h = verify_opcode md5 h0
    let (sent, w2) = ops.send (s.partner h.partner_id).socket_fd (header h) w1
    require (s.rep_conn h.partner_id)
    some (h, s, w2)

  -- A failure of `recv` while the last header asked for data: the connection of its partner is paused.
  unfoldable pub pause_receiving : ℕ → Server → W → Server × W
  pause_receiving pid s w =
      let c = s.conn pid in
      (
        record s {
          partner_created = update s.partner_created pid false;
          conn = update s.conn pid (record c { conn_fd = none; obj_state = ObjectState.pause });
          sock_recovery = update s.sock_recovery pid true;
        },
        ops.hang_up (descriptor_of c.conn_fd) w,
      )

  unfoldable pub recv_failed : Header → Server → W → Server × W
  unfolding pause_receiving
  recv_failed h s w = elim h.opcode [
    | Opcode.data_op ↦ pause_receiving h.partner_id s w
    | _ ↦ (s, w)
  ]

  module _ (recv : ℕ → Header → W → Received × W)
      (handle : Header → Server → W → Option (Header × Server × W)) (sock : ℕ) where
    -- The loop, for at most so many rounds; the header is that of the last message, which is handled
    -- again when the peer has closed its end.
    unfoldable pub receive : ℕ → Header → Server → W → Leaving W
    receive zero h s w = running h s w
    receive (suc n) h s w =
        let (r, w1) = recv sock h w in
        elim r [
          | failed ↦ (let (s2, w2) = recv_failed h s w1 in returned s2 w2)
          | closed ↦ elim (handle h s w1) [
            | none ↦ stopped
            | some (h2, s2, w2) ↦ receive n h2 s2 w2
          ]
          | got h1 ↦ elim (handle h1 s w1) [
            | none ↦ stopped
            | some (h2, s2, w2) ↦ receive n h2 s2 w2
          ]
        ]

  -- `send_recv_handler` of a partner id and a socket, and its loop; what the kernel and `malloc`
  -- answer to a request for a bitmap comes from the world.
  unfoldable pub send_recv_handler :
      (ℕ → Header → W → Received × W)
      → (Header → W → Option (List ℕ) × W)
      → (W → Option ℕ × Answers × Answers)
      → ℕ
      → ℕ
      → ℕ
      → Header
      → Server
      → W
      → Leaving W
  unfolding receive
  send_recv_handler recv md5sum answers rounds server_pid sock h s w =
      let c : Conn = record (s.conn server_pid) { conn_fd = some sock } in
      let handle : Header → Server → W → Option (Header × Server × W) = λ h s w.
        let (block, a, a') = answers w in dispatch ops (verify_data md5sum) block a a' h s w in
      if ltb server_pid max_partners
      then receive recv handle sock rounds h (record s { conn = update s.conn server_pid c }) w
      else stopped

-- ===== src/User/Client/Session/Keys.antt =====
-- The ids in the client's table of partners when a relation is made and when the answers of the server
-- are taken up.
use greko.Base.{ℕ, ◌≡◌, ◌∙◌, some, List, arith, ◌>>=◌, require_step, ◌==◌, if_holds, ltb, ◌%◌, ◌^◌}
use greko.User.Types.{Opcode, Bytes, Header, RepMode}
use greko.User.Server.{max_partners}
use greko.User.Client.{Daemon, System, set_hdr, make_relation_client, is_client_partner_id_valid}
use greko.User.Client.View.{restart_at, terminate_at}
use greko.User.Client.Keys.{
  SameIds, then-SameIds, make_relation_client-SameIds, relation_client_obj_destroy-SameIds,
  replic_hdr_client_nego-SameIds, disk_target_create-SameIds, disk_target_setup-SameIds,
}
use greko.User.Client.Session.{
  Md5, send_hdr, verify_data_resp, remove_relationpeer, reply, recv_hdr, start_protocol_negotiation,
  prepare_for_replication, finish_relation, make_relation_with_server,
}
use greko.User.Posix.{Posix}

module _ {W : Type 0} (ops : Posix W) where
  pub terminate_at-SameIds : (pid : ℕ) (s : Daemon) (w : W) → SameIds s (terminate_at ops pid s w).0
  unfolding terminate_at
  terminate_at-SameIds pid s w i = ground arith

  pub restart_at-SameIds :
      (pid bit_pos : ℕ) (mode : RepMode) (buff : Bytes) (s : Daemon) (w : W)
      → SameIds s (restart_at ops pid bit_pos mode buff s w).1
  unfolding restart_at
  restart_at-SameIds pid bit_pos mode buff s w i = ground arith

module _ {W : Type 0} (sys : System W) where
  pub send_hdr-SameIds :
      (pid sock : ℕ) (s : Daemon) (w : W) (t : Daemon) (w1 : W)
      → send_hdr sys pid sock s w ≡ some (t, w1)
      → SameIds s t
  unfolding send_hdr
  send_hdr-SameIds pid sock s w t w1 e i = ground arith

module _ {W : Type 0} (sys : System W) (md5sum : Md5 W) where
  verify_data_resp-SameIds :
      (pid slot : ℕ) (buff : Bytes) (s : Daemon) (w : W) (t : Daemon) (w1 : W)
      → verify_data_resp sys md5sum pid slot buff s w ≡ some (t, w1)
      → SameIds s t
  unfolding verify_data_resp
  verify_data_resp-SameIds pid slot buff s w t w1 e i =
      let found = md5sum (s.disk pid).name (s.hdr slot) w in
      let ended = restart_at sys.posix pid 0 RepMode.full_resync buff s found.1 in
      ground (
        arith,
        terminate_at-SameIds sys.posix pid s found.1 i,
        terminate_at-SameIds sys.posix pid ended.1 ended.2 i,
        restart_at-SameIds sys.posix pid 0 RepMode.full_resync buff s found.1 i,
      )

  remove_relationpeer-SameIds :
      (rid : ℕ) (s t : Daemon) → remove_relationpeer sys md5sum rid s ≡ some t → SameIds s t
  unfolding remove_relationpeer
  remove_relationpeer-SameIds rid s t e i =
      ground (arith, relation_client_obj_destroy-SameIds rid s i)

  prepare_for_replication-SameIds :
      (disk : List ℕ) (pid : ℕ) (s : Daemon) (w : W)
      → SameIds s (prepare_for_replication sys disk pid s w).0
  unfolding prepare_for_replication
  prepare_for_replication-SameIds disk pid s w i =
      disk_target_setup-SameIds sys pid _ w i ∙ disk_target_create-SameIds disk pid s i

  finish_relation-SameIds :
      (pid : ℕ) (disk : List ℕ) (s : Daemon) (w : W)
      → SameIds s (finish_relation sys md5sum pid disk s w).0
  unfolding finish_relation
  finish_relation-SameIds pid disk s w i = prepare_for_replication-SameIds disk pid _ w i

  verified-SameIds :
      (slot : ℕ) (buff : Bytes) (s : Daemon) (w : W) (t : Daemon) (w1 : W)
      → (verify_data_resp sys md5sum (s.hdr slot).partner_id slot buff s w >>= λ (a, b).
          some (terminate_at sys.posix (a.hdr slot).partner_id a b))
        ≡ some (t, w1)
      → SameIds s t
  verified-SameIds slot buff s w t w1 =
      then-SameIds s _ (λ (a, b). some (terminate_at sys.posix (a.hdr slot).partner_id a b)) t w1
        (verify_data_resp-SameIds (s.hdr slot).partner_id slot buff s w)
        (λ a b e i. grind (arith, terminate_at-SameIds sys.posix (a.hdr slot).partner_id a b i))

  reply-SameIds :
      (slot : ℕ) (buff : Bytes) (s : Daemon) (w : W) (t : Daemon) (w1 : W)
      → reply sys md5sum slot buff s w ≡ some (t, w1)
      → SameIds s t
  unfolding reply
  reply-SameIds slot buff s w t w1 e i = grind (
    arith,
    λ (a : Daemon). remove_relationpeer-SameIds (s.hdr slot).relation_id s a,
    λ (e1 : _). verified-SameIds slot buff s w t w1 e1 i,
    terminate_at-SameIds sys.posix (s.hdr slot).partner_id s w i,
    replic_hdr_client_nego-SameIds (s.hdr slot) (s.hdr slot).partner_id s i,
  )

  recv_hdr-SameIds :
      (slot sock : ℕ) (buff : Bytes) (s : Daemon) (w : W) (t : Daemon) (w1 : W)
      → recv_hdr sys md5sum slot sock buff s w ≡ some (t, w1)
      → SameIds s t
  unfolding recv_hdr
  recv_hdr-SameIds slot sock buff s w t w1 e =
      let got = sys.recv_header sock (s.hdr slot) w in
      reply-SameIds slot buff (set_hdr slot got.1 s) got.2 t w1 (require_step got.0 _ e)

  acknowledge-SameIds :
      (pid sock : ℕ) (buff : Bytes) (a : Daemon) (b : W) (t : Daemon) (w1 : W)
      → (recv_hdr sys md5sum pid sock buff a b >>= λ (c, d).
          send_hdr sys pid
            (c.partner pid).socket_fd
            (set_hdr pid (record (c.hdr pid) { opcode = Opcode.ack }) c)
            d)
        ≡ some (t, w1)
      → SameIds a t
  acknowledge-SameIds pid sock buff a b t w1 =
      then-SameIds a (recv_hdr sys md5sum pid sock buff a b)
        (λ (c, d).
          send_hdr sys pid (c.partner pid).socket_fd
            (set_hdr pid (record (c.hdr pid) { opcode = Opcode.ack }) c) d)
        t w1 (recv_hdr-SameIds pid sock buff a b)
        (λ c d.
          send_hdr-SameIds sys pid (c.partner pid).socket_fd
            (set_hdr pid (record (c.hdr pid) { opcode = Opcode.ack }) c) d t w1)

  start_protocol_negotiation-SameIds :
      (bitmap_size grain_size chunk_size pid : ℕ) (buff : Bytes) (s : Daemon) (w : W) (t : Daemon)
      (w1 : W)
      → start_protocol_negotiation sys md5sum bitmap_size grain_size chunk_size pid buff s w
        ≡ some (t, w1)
      → SameIds s t
  unfolding start_protocol_negotiation
  start_protocol_negotiation-SameIds bitmap_size grain_size chunk_size pid buff s w t w1 =
      let h : Header = record (s.hdr pid) {
        opcode = Opcode.syn;
        bitmap_size = bitmap_size % 2 ^ 32;
        grain_size = grain_size % 2 ^ 32;
        chunk_size = chunk_size % 2 ^ 32;
        partner_id = pid;
      } in
      then-SameIds s (send_hdr sys pid (s.partner pid).socket_fd (set_hdr pid h s) w)
        (λ (a, b). recv_hdr sys md5sum pid (a.partner pid).socket_fd buff a b >>= λ (c, d).
          send_hdr sys pid (c.partner pid).socket_fd
            (set_hdr pid (record (c.hdr pid) { opcode = Opcode.ack }) c) d)
        t w1 (send_hdr-SameIds sys pid (s.partner pid).socket_fd (set_hdr pid h s) w)
        (λ a b. acknowledge-SameIds pid (a.partner pid).socket_fd buff a b t w1)

  pub make_relation_with_server-SameIds :
      (pid role : ℕ) (disk : List ℕ) (bitmap_size grain_size chunk_size : ℕ) (buff : Bytes)
      (s : Daemon) (w : W) (t : Daemon) (w1 : W)
      → make_relation_with_server sys md5sum pid role disk bitmap_size grain_size chunk_size buff s
          w
        ≡ some (t, w1)
      → SameIds s t
  unfolding make_relation_with_server
  make_relation_with_server-SameIds pid role disk bitmap_size grain_size chunk_size buff s w t w1
        e =
      let s1 = make_relation_client (role == 0) pid disk s in
      let negotiated =
        start_protocol_negotiation sys md5sum bitmap_size grain_size chunk_size pid buff s1 w in
      let made : (negotiated >>= λ (a, b). some (finish_relation sys md5sum pid disk a b))
            ≡ some (t, w1)
          → SameIds s t =
        λ e1 i.
          then-SameIds s1 negotiated (λ (a, b). some (finish_relation sys md5sum pid disk a b)) t w1
            (start_protocol_negotiation-SameIds bitmap_size grain_size chunk_size pid buff s1 w)
            (λ a b e2 j. grind (arith, finish_relation-SameIds pid disk a b j)) e1 i
          ∙ make_relation_client-SameIds (role == 0) pid disk s i in
      if_holds (λ x. x ≡ some (t, w1) → SameIds s t) (is_client_partner_id_valid pid s) _ _
        (λ v. made) (λ v e1 i. grind arith) (require_step (ltb pid max_partners) _ e)

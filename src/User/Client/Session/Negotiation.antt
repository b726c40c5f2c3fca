-- ===== src/User/Client/Session/Negotiation.antt =====
-- The sizes that a client's relation has after the negotiation with its server,
-- `make_relation_with_server` of user/atdr_linux/atdr_daemon.c.
use greko.Base.{
  ℕ, ◌<◌, ◌≡◌, refl, ap, ◌∙◌, Bool, true, some, List, ◌∷◌, ltb, ◌==◌, arith, update, update_self,
  ◌%◌, ◌^◌, >>=-some,
}
use mathlib.Core.Path.{subst, sym}
use greko.User.Types.{Bytes, Header, Opcode}
use greko.User.Posix.{header}
use greko.User.Server.{max_partners, Sizes, Relation, proposed}
use greko.User.Client.{
  Daemon, System, Statement, set_hdr, is_client_partner_id_valid, make_relation_client,
  disk_target_create, disk_target_setup, replic_hdr_client_nego,
}
use greko.User.Client.Session.{
  Md5, send_hdr, reply, recv_hdr, start_protocol_negotiation, prepare_for_replication,
  finish_relation, make_relation_with_server,
}

nego-proposed :
    (h : Header) (pid : ℕ) (s : Daemon)
    → proposed ((replic_hdr_client_nego h pid s).hdr pid) ≡ proposed h
unfolding replic_hdr_client_nego
nego-proposed h pid s =
    ap (λ x. proposed x)
      (update_self s.hdr pid (record (s.hdr pid) {
        bitmap_size = h.bitmap_size;
        grain_size = h.grain_size;
        chunk_size = h.chunk_size;
      }))

make_relation_client-up :
    (role : Bool) (pid : ℕ) (disk : List ℕ) (s : Daemon)
    → (s.replication pid).rep_conn ≡ true
    → ((make_relation_client role pid disk s).replication pid).rep_conn ≡ true
unfolding make_relation_client
make_relation_client-up role pid disk s e = e

abbrev pub sizes_of : Relation → Sizes
sizes_of r = record {
  bitmap_size = r.bitmap_size;
  grain_size = r.grain_size;
  chunk_size = r.chunk_size;
}

nego-replication :
    (h : Header) (pid : ℕ) (s : Daemon)
    → (replic_hdr_client_nego h pid s).replication ≡ s.replication
unfolding replic_hdr_client_nego
nego-replication h pid s = refl

module _ {W : Type 0} (sys : System W) where
  send_hdr-some :
      (pid sock : ℕ) (s : Daemon) (w : W)
      → (s.replication pid).rep_conn ≡ true
      → send_hdr sys pid sock s w ≡ some (s, (sys.posix.send sock (header (s.hdr pid)) w).1)
  unfolding send_hdr
  send_hdr-some pid sock s w e = rw e refl

  disk_target_setup-world :
      (slot : ℕ) (s : Daemon) (w : W)
      → (disk_target_setup sys slot s w).1 ≡ (sys.open_file (s.disk slot).name w).1
  unfolding disk_target_setup
  disk_target_setup-world slot s w = ground arith

  -- A connection to a server that answers a SYN for the partner id by a SYN_ACK with these sizes: from a
  -- world that is Ready, a SYN leads to one that is Answered, which the rest of the negotiation keeps.
  pub record Answering (pid : ℕ) (z : Sizes) (Ready Answered : W → Type 0) : Type 0 where
    pub asked :
        (sock : ℕ) (h : Header) (w : W)
        → Ready w
        → h.opcode ≡ Opcode.syn
        → h.partner_id ≡ pid
        → Answered (sys.posix.send sock (header h) w).1
    pub arrives : (sock : ℕ) (h : Header) (w : W) → Answered w → (sys.recv_header sock h w).0 ≡ true
    pub is_syn_ack :
        (sock : ℕ) (h : Header) (w : W)
        → Answered w
        → (sys.recv_header sock h w).1.opcode ≡ Opcode.syn_ack
    pub is_for :
        (sock : ℕ) (h : Header) (w : W) → Answered w → (sys.recv_header sock h w).1.partner_id ≡ pid
    pub answers :
        (sock : ℕ) (h : Header) (w : W) → Answered w → proposed (sys.recv_header sock h w).1 ≡ z
    pub received :
        (sock : ℕ) (h : Header) (w : W) → Answered w → Answered (sys.recv_header sock h w).2
    pub acknowledged :
        (sock : ℕ) (h : Header) (w : W)
        → Answered w
        → h.opcode ≡ Opcode.ack
        → Answered (sys.posix.send sock (header h) w).1
    pub opened : (name : List ℕ) (w : W) → Answered w → Answered (sys.open_file name w).1

module _ {W : Type 0} (sys : System W) (md5sum : Md5 W) (Ready Answered : W → Type 0) where
  reply-syn_ack :
      (slot pid : ℕ) (buff : Bytes) (s : Daemon) (w : W)
      → (s.hdr slot).opcode ≡ Opcode.syn_ack
      → (s.hdr slot).partner_id ≡ pid
      → pid < max_partners
      → reply sys md5sum slot buff s w ≡ some (replic_hdr_client_nego (s.hdr slot) pid s, w)
  unfolding reply
  reply-syn_ack slot pid buff s w op same lt = grind arith

  prepare_for_replication-relation :
      (disk : List ℕ) (pid : ℕ) (s : Daemon) (w : W)
      → ((prepare_for_replication sys disk pid s w).0.relation ≡ s.relation)
        × ((prepare_for_replication sys disk pid s w).0.hdr ≡ s.hdr)
  unfolding prepare_for_replication disk_target_create disk_target_setup
  prepare_for_replication-relation disk pid s w = (grind arith, grind arith)

  finish_relation-sizes :
      (pid : ℕ) (disk : List ℕ) (s : Daemon) (w : W)
      → (proposed ((finish_relation sys md5sum pid disk s w).0.hdr pid) ≡ proposed (s.hdr pid))
        × (sizes_of ((finish_relation sys md5sum pid disk s w).0.relation pid)
            ≡ proposed (s.hdr pid))
  unfolding finish_relation
  finish_relation-sizes pid disk s w =
      let h = s.hdr pid in
      let r : Relation = record (s.relation pid) {
        bitmap_size = h.bitmap_size;
        grain_size = h.grain_size;
        chunk_size = h.chunk_size;
      } in
      let s1 : Daemon = record s {
        relation = update s.relation pid r;
        db = Statement.insert_into_relation pid r ∷ s.db;
      } in
      let (relation, hdr) = prepare_for_replication-relation disk pid s1 w in
      (
        ap (λ x. proposed (x pid)) hdr,
        ap (λ x. sizes_of (x pid)) relation ∙ ap (λ x. sizes_of x) (update_self s.relation pid r),
      )

  finish_relation-answered :
      (pid : ℕ) (disk : List ℕ) (s : Daemon) (w : W) (z : Sizes)
      → Answering sys pid z Ready Answered
      → Answered w
      → Answered (finish_relation sys md5sum pid disk s w).1
  unfolding finish_relation prepare_for_replication
  finish_relation-answered pid disk s w z from_server answered =
      subst (λ x. Answered x) (sym (disk_target_setup-world sys pid _ w))
        (from_server.opened _ w answered)

  recv_hdr-syn_ack :
      (pid sock : ℕ) (z : Sizes) (buff : Bytes) (s : Daemon) (w : W)
      → Answering sys pid z Ready Answered
      → Answered w
      → pid < max_partners
      → (t : Daemon) × (w1 : W) × (recv_hdr sys md5sum pid sock buff s w ≡ some (t, w1))
        × (proposed (t.hdr pid) ≡ z)
        × (t.replication ≡ s.replication)
        × Answered w1
  unfolding recv_hdr
  recv_hdr-syn_ack pid sock z buff s w from_server here_now lt =
      let got = sys.recv_header sock (s.hdr pid) w in
      let s1 = set_hdr pid got.1 s in
      let here : s1.hdr pid ≡ got.1 = update_self s.hdr pid got.1 in
      let e : recv_hdr sys md5sum pid sock buff s w
          ≡ some (replic_hdr_client_nego (s1.hdr pid) pid s1, got.2) =
        simp (from_server.arrives sock (s.hdr pid) w here_now) (
          reply-syn_ack pid pid buff s1 got.2
            (ap (λ x. x.opcode) here ∙ from_server.is_syn_ack sock (s.hdr pid) w here_now)
            (ap (λ x. x.partner_id) here ∙ from_server.is_for sock (s.hdr pid) w here_now) lt) in
      (
        replic_hdr_client_nego (s1.hdr pid) pid s1,
        got.2,
        e,
        nego-proposed (s1.hdr pid) pid s1
            ∙ ap (λ x. proposed x) here
            ∙ from_server.answers sock (s.hdr pid) w here_now,
        nego-replication (s1.hdr pid) pid s1,
        from_server.received sock (s.hdr pid) w here_now,
      )

  start_protocol_negotiation-agrees :
      (bitmap_size grain_size chunk_size pid : ℕ) (z : Sizes) (buff : Bytes) (s : Daemon) (w : W)
      → Answering sys pid z Ready Answered
      → Ready w
      → pid < max_partners
      → (s.replication pid).rep_conn ≡ true
      → (t : Daemon) × (w1 : W) × (start_protocol_negotiation sys md5sum bitmap_size grain_size
            chunk_size pid buff s w
          ≡ some (t, w1))
        × (proposed (t.hdr pid) ≡ z)
        × Answered w1
  unfolding start_protocol_negotiation
  start_protocol_negotiation-agrees bitmap_size grain_size chunk_size pid z buff s w from_server
        ready lt up =
      let h : Header = record (s.hdr pid) {
        opcode = Opcode.syn;
        bitmap_size = bitmap_size % 2 ^ 32;
        grain_size = grain_size % 2 ^ 32;
        chunk_size = chunk_size % 2 ^ 32;
        partner_id = pid;
      } in
      let s1 = set_hdr pid h s in
      let w1 = (sys.posix.send (s.partner pid).socket_fd (header (s1.hdr pid)) w).1 in
      let here : s1.hdr pid ≡ h = update_self s.hdr pid h in
      let answered : Answered w1 =
        from_server.asked (s.partner pid).socket_fd (s1.hdr pid) w ready (ap (λ x. x.opcode) here)
          (ap (λ x. x.partner_id) here) in
      let (s2, w2, e, sizes, same, after) =
        recv_hdr-syn_ack pid (s1.partner pid).socket_fd z buff s1 w1 from_server answered lt in
      let last : Header = record (s2.hdr pid) { opcode = Opcode.ack } in
      let s3 = set_hdr pid last s2 in
      let w3 = (sys.posix.send (s2.partner pid).socket_fd (header (s3.hdr pid)) w2).1 in
      (
        s3,
        w3,
        >>=-some _ (send_hdr-some sys pid (s.partner pid).socket_fd s1 w up)
            ∙ >>=-some _ e
            ∙ send_hdr-some sys pid (s2.partner pid).socket_fd s3 w2
                (ap (λ r. (r pid).rep_conn) same ∙ up),
        ap (λ x. proposed x) (update_self s2.hdr pid last) ∙ sizes,
        from_server.acknowledged (s2.partner pid).socket_fd (s3.hdr pid) w2 after
            (ap (λ x. x.opcode) (update_self s2.hdr pid last)),
      )

  -- Over a connection to a server that answers a SYN, the making of a relation with a valid partner id,
  -- connected and in the tables, ends, and the header and the relation of the partner id then have the
  -- sizes that the server answered, whatever sizes were asked for.
  pub make_relation_with_server-agrees :
      (pid role : ℕ) (disk : List ℕ) (bitmap_size grain_size chunk_size : ℕ) (z : Sizes)
      (buff : Bytes) (s : Daemon) (w : W)
      → Answering sys pid z Ready Answered
      → Ready w
      → pid < max_partners
      → is_client_partner_id_valid pid s ≡ true
      → (s.replication pid).rep_conn ≡ true
      → (t : Daemon) × (w1 : W) × (make_relation_with_server sys md5sum pid role disk bitmap_size
            grain_size chunk_size buff s w
          ≡ some (t, w1))
        × (proposed (t.hdr pid) ≡ z)
        × ((t.relation pid).bitmap_size ≡ z.bitmap_size)
        × ((t.relation pid).grain_size ≡ z.grain_size)
        × ((t.relation pid).chunk_size ≡ z.chunk_size)
        × Answered w1
  unfolding make_relation_with_server
  make_relation_with_server-agrees pid role disk bitmap_size grain_size chunk_size z buff s w
        from_server ready lt valid up =
      let s1 = make_relation_client (role == 0) pid disk s in
      let placed : ltb pid max_partners ≡ true = ground arith in
      let (s2, w2, e, sizes, answered) =
        start_protocol_negotiation-agrees bitmap_size grain_size chunk_size pid z buff s1 w
          from_server ready lt (make_relation_client-up (role == 0) pid disk s up) in
      let end = finish_relation sys md5sum pid disk s2 w2 in
      let (hdr, relation) = finish_relation-sizes pid disk s2 w2 in
      (
        end.0,
        end.1,
        rw (placed, valid) (>>=-some _ e),
        hdr ∙ sizes,
        ap (λ x. x.bitmap_size) (relation ∙ sizes),
        ap (λ x. x.grain_size) (relation ∙ sizes),
        ap (λ x. x.chunk_size) (relation ∙ sizes),
        finish_relation-answered pid disk s2 w2 z from_server answered,
      )

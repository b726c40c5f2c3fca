-- ===== src/User/Server/Handlers/Agreement.antt =====
-- A client and a server that negotiate: `make_relation_with_server` of
-- user/atdr_linux/atdr_daemon.c on the one side and `syn_received` of replic_server.c on the other,
-- over a connection that delivers.
use greko.Base.{ℕ, ◌<◌, ◌≡◌, refl, sym, ap, ◌∙◌, true, Option, some, List, arith}
use mathlib.Core.Path.{subst}
use greko.User.Types.{Bytes, Header, Opcode}
use greko.User.Posix.{Posix, Packet, header, bytes}
use greko.User.Server.{Server, max_partners, proposed, make_partner}
use greko.User.Server.Handlers.{syn_received}
use greko.User.Server.Handlers.Lifecycle.{syn_received-sizes}
use greko.User.Client.{Daemon, System, is_client_partner_id_valid}
use greko.User.Client.Session.{Md5, make_relation_with_server}
use greko.User.Client.Session.Negotiation.{Answering, make_relation_with_server-agrees}

-- The server, the header that was sent to the client last, and the rest of the world.
pub record Link (W : Type 0) : Type 0 where
  pub server : Server
  pub inbox : Header
  pub outside : W

-- What an opcode and the answer to it make of the connection.
abbrev pub answered_by : {W : Type 0} → Opcode → Option (Header × Server × Link W) → Link W → Link W
answered_by Opcode.syn (some (h2, s2, l2)) l = record l2 { server = s2 }
answered_by _ _ l = l

-- The header that is on its way after a sending.
abbrev pub posted : Packet → Header → Header
posted (header h) old = h
posted (bytes n b) old = old

module _ {W : Type 0} (ops : Posix W) where
  -- The server's calls: what it sends as a header goes to the client.
  abbrev pub posting : Posix (Link W)
  posting = record {
    lseek = λ fd o l. let (ok, w) = ops.lseek fd o l.outside in (ok, record l { outside = w });
    read = λ fd b n l.
        let (ok, got, w) = ops.read fd b n l.outside in (ok, got, record l { outside = w });
    write = λ fd b n l. let (ok, w) = ops.write fd b n l.outside in (ok, record l { outside = w });
    send = λ fd p l.
        let (ok, w) = ops.send fd p l.outside in
        (ok, record l { inbox = posted p l.inbox; outside = w });
    recv = λ fd b n l.
        let (ok, got, w) = ops.recv fd b n l.outside in (ok, got, record l { outside = w });
    timed_out = λ l. ops.timed_out l.outside;
    hang_up = λ fd l. record l { outside = ops.hang_up fd l.outside };
    pauses = λ l. ops.pauses l.outside;
  }

  -- A SYN is received by the server; the header that it sends is then on the way.
  abbrev pub deliver : Packet → Link W → Link W
  deliver (bytes n b) l = l
  deliver (header h) l = answered_by h.opcode (syn_received posting h l.server l) l

  -- The client's system `sys`, its messages to the server delivered.
  abbrev pub linked : System (Link W) → System (Link W)
  linked sys = record sys {
    posix = record sys.posix { send = λ sock p l. (true, deliver p l) };
    recv_header = λ sock h l. (true, l.inbox, l);
  }

  syn_received-partner :
      (ask : Header) (s : Server) (w : Link W) (h2 : Header) (s2 : Server) (w2 : Link W)
      → syn_received posting ask s w ≡ some (h2, s2, w2)
      → h2.partner_id ≡ ask.partner_id
  unfolding syn_received
  syn_received-partner ask s w h2 s2 w2 e = grind arith

  -- The server made the partnership that `h` proposes.
  abbrev pub Ready : Header → Server → Link W → Type 0
  Ready h s0 l = make_partner h s0 ≡ some (h, l.server)

  -- The answer is on the way, and the server's relation has the sizes of the partnership.
  abbrev pub Answered : Header → Link W → Type 0
  Answered h l =
      (l.inbox.opcode ≡ Opcode.syn_ack)
      × (l.inbox.partner_id ≡ h.partner_id)
      × (proposed l.inbox ≡ proposed h)
      × ((l.server.relation h.partner_id).bitmap_size ≡ h.bitmap_size)
      × ((l.server.relation h.partner_id).grain_size ≡ h.grain_size)
      × ((l.server.relation h.partner_id).chunk_size ≡ h.chunk_size)

  asked-Answered :
      (h ask : Header) (s0 : Server) (l : Link W)
      → h.partner_id < max_partners
      → s0.ps_count < max_partners
      → Ready h s0 l
      → ask.opcode ≡ Opcode.syn
      → ask.partner_id ≡ h.partner_id
      → Answered h (deliver (header ask) l)
  asked-Answered h ask s0 l lt room ready is_syn same =
      let (s1, h2, s2, l2, made, received, sent, op, sizes, grain, chunk, bits) =
        syn_received-sizes posting h ask s0 l lt room same in
      let server : l.server ≡ s1 = cc (sym ready ∙ made) in
      let e : deliver (header ask) l ≡ record l2 { server = s2 } =
        ap (λ o. answered_by o (syn_received posting ask l.server l) l) is_syn
        ∙ ap (λ r. answered_by Opcode.syn r l)
            (ap (λ x. syn_received posting ask x l) server ∙ received) in
      let arrived : l2.inbox ≡ h2 = ap (λ x. x.inbox) sent in
      subst (λ x. Answered h x) (sym e)
        (
          ap (λ x. x.opcode) arrived ∙ op,
          ap (λ x. x.partner_id) arrived ∙ syn_received-partner ask s1 l h2 s2 l2 received ∙ same,
          ap proposed arrived ∙ sizes,
          bits,
          grain,
          chunk,
        )

  linked-Answering :
      (sys : System (Link W)) (h : Header) (s0 : Server)
      → h.partner_id < max_partners
      → s0.ps_count < max_partners
      → ((name : List ℕ) (l : Link W) → Answered h l → Answered h (sys.open_file name l).1)
      → Answering (linked sys) h.partner_id (proposed h) (Ready h s0) (Answered h)
  linked-Answering sys h s0 lt room opened = record {
    asked = λ sock ask l ready is_syn same. asked-Answered h ask s0 l lt room ready is_syn same;
    arrives = λ sock x l a. refl;
    is_syn_ack = λ sock x l a. a.0;
    is_for = λ sock x l a. a.1;
    answers = λ sock x l a. a.2;
    received = λ sock x l a. a;
    acknowledged = λ sock x l a is_ack.
        subst (λ o. Answered h (answered_by o (syn_received posting x l.server l) l)) (sym is_ack)
          a;
    opened = opened;
  }

  -- Over a connection that delivers what is sent, and when opening a file changes nothing at the
  -- server: a server that has made a partnership within the bounds of its tables and a client that
  -- makes the relation with the same partner id, valid and connected there, end with relations of
  -- the same sizes, those of the partnership, whatever sizes the client asks for in the
  -- negotiation.
  pub client-server-agree :
      (md5sum : Md5 (Link W)) (sys : System (Link W)) (h : Header) (s0 : Server) (role : ℕ)
      (disk : List ℕ) (bitmap_size grain_size chunk_size : ℕ) (buff : Bytes) (s : Daemon)
      (l : Link W)
      → h.partner_id < max_partners
      → s0.ps_count < max_partners
      → make_partner h s0 ≡ some (h, l.server)
      → is_client_partner_id_valid h.partner_id s ≡ true
      → (s.replication h.partner_id).rep_conn ≡ true
      → ((name : List ℕ) (x : Link W)
          → ((sys.open_file name x).1.server ≡ x.server)
            × ((sys.open_file name x).1.inbox ≡ x.inbox))
      → (t : Daemon) × (l1 : Link W) × (make_relation_with_server
            (linked sys)
            md5sum
            h.partner_id
            role
            disk
            bitmap_size
            grain_size
            chunk_size
            buff
            s
            l
          ≡ some (t, l1))
        × ((t.relation h.partner_id).bitmap_size ≡ (l1.server.relation h.partner_id).bitmap_size)
        × ((t.relation h.partner_id).grain_size ≡ (l1.server.relation h.partner_id).grain_size)
        × ((t.relation h.partner_id).chunk_size ≡ (l1.server.relation h.partner_id).chunk_size)
        × ((t.relation h.partner_id).bitmap_size ≡ h.bitmap_size)
        × ((t.relation h.partner_id).grain_size ≡ h.grain_size)
        × ((t.relation h.partner_id).chunk_size ≡ h.chunk_size)
  client-server-agree md5sum sys h s0 role disk bitmap_size grain_size chunk_size buff s l lt room
        made valid up keeps =
      let opened : (name : List ℕ) (x : Link W)
          → Answered h x
          → Answered h (sys.open_file name x).1 =
        λ name x a. let (server, inbox) = keeps name x in rw (server, inbox) a in
      let (t, l1, e, hdr, b, g, c, a) =
        make_relation_with_server-agrees (linked sys) md5sum (Ready h s0) (Answered h) h.partner_id
          role disk bitmap_size grain_size chunk_size (proposed h) buff s l
          (linked-Answering sys h s0 lt room opened) made lt valid up in
      (t, l1, e, b ∙ sym a.3, g ∙ sym a.4, c ∙ sym a.5, b, g, c)

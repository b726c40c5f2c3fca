-- ===== src/User/Server/Handlers/Lifecycle.antt =====
-- Making, negotiating, ending and removing a partnership.
use greko.Base.{
  ℕ, zero, suc, ◌+◌, ◌≤◌, ◌<◌, ◌≡◌, refl, sym, ap, ap₂, ◌∙◌, true, false, ◌&&◌, ◌||◌, Option, none,
  some, ◌==◌, if◌then◌else◌, arith, update, update_self, inl, inr, ==_cases, List, ◌∷◌, lt→ltb,
}
use mathlib.Core.Path.{subst}
use greko.User.Types.{Header, Opcode, IoState}
use greko.Kernel.Device.{Answers}
use greko.User.Server.Handlers.Data.{get_data-released}
use greko.User.Posix.{Posix, header}
use greko.User.Server.{
  Server, Sizes, Partner, Relation, insert_into_relation, proposed, terminate, terminated,
  is_released_partner, make_partner, accepted, descriptor_of, joined, make_partner_server,
  make_relation_server, make_relation_with_client, remove_partner, release_relation, has_id,
  is_server_partner_id_valid, max_partners,
}
use greko.User.Server.Handlers.{syn_received, get_bitmap, get_data, data_req, dispatch}
use greko.User.Server.Handlers.Termination.{terminate-terminated}

has_id-found :
    (partner : ℕ → Partner) (pid n i : ℕ)
    → i ≤ pid
    → pid < i + n
    → (partner pid).id ≡ pid
    → has_id partner pid n i ≡ true
unfolding has_id
has_id-found partner pid zero i lo hi e = ground arith
has_id-found partner pid (suc n) i lo hi e = elim (==_cases i pid) [
  | inl same ↦
      let here : ((partner i).id == pid) ≡ true =
        subst (λ i. ((partner i).id == pid) ≡ true) (sym same) (ground arith) in
      ap (λ b. b || has_id partner pid n (suc i)) here
  | inr other ↦
      let rest = has_id-found partner pid n (suc i) (omega arith) (omega arith) e in
      ap (λ b. ((partner i).id == pid) || b) rest ∙ ground arith
]

make_partner_server-IsValid :
    (ip : List ℕ) (bandwidth sfd pid : ℕ) (s : Server)
    → pid < max_partners
    → is_server_partner_id_valid pid (make_partner_server ip bandwidth sfd pid s) ≡ true
unfolding make_partner_server is_server_partner_id_valid
make_partner_server-IsValid ip bandwidth sfd pid s lt =
    has_id-found (make_partner_server ip bandwidth sfd pid s).partner pid max_partners 0
      (omega arith) (omega arith) (ap (λ (p : Partner). p.id) (update_self s.partner pid _))

make_relation_with_client-sizes :
    (pid role : ℕ) (disk : List ℕ) (sizes : Sizes) (s : Server)
    → pid < max_partners
    → is_server_partner_id_valid pid s ≡ true
    → let s1 = make_relation_server (role == 0) pid disk s in
      make_relation_with_client pid role disk sizes s
      ≡ some (record s1 { sizes = update s1.sizes pid sizes })
unfolding make_relation_with_client
make_relation_with_client-sizes pid role disk sizes s lt ok =
    let s1 = make_relation_server (role == 0) pid disk s in
    ap₂
      (λ b c.
        if b
        then (if c then some (record s1 { sizes = update s1.sizes pid sizes }) else some s)
        else none)
      (lt→ltb pid max_partners lt) ok

-- The server after MAKE_PARTNER.
abbrev pub partnered : Header → Server → Server
partnered h s =
    let s1 = make_relation_server true h.partner_id h.disk (joined h s) in
    record s1 { sizes = update s1.sizes h.partner_id (proposed h) }

pub make_partner-partnered :
    (h : Header) (s : Server)
    → h.partner_id < max_partners
    → s.ps_count < max_partners
    → make_partner h s ≡ some (h, partnered h s)
unfolding make_partner
make_partner-partnered h s lt room =
    let pid = h.partner_id in
    let j = joined h s in
    let ok =
      make_partner_server-IsValid h.dest_ip h.bandwidth
        (descriptor_of ((accepted pid s).conn pid).conn_fd) pid (accepted pid s) lt in
    let after : Option Server → Option (Header × Server) =
      λ o. elim o [ none ↦ none | some s' ↦ some (h, s') ] in
    ap₂
      (λ b c.
        if b && c
        then (if is_server_partner_id_valid pid j
            then after (make_relation_with_client pid 0 h.disk (proposed h) j)
            else some (h, j))
        else none)
      (lt→ltb pid max_partners lt) (lt→ltb s.ps_count max_partners room)
    ∙ ap
        (λ b.
          if b then after (make_relation_with_client pid 0 h.disk (proposed h) j) else some (h, j))
        ok
    ∙ ap after (make_relation_with_client-sizes pid 0 h.disk (proposed h) j lt ok)

partnered-ready :
    (h : Header) (s : Server)
    → ((partnered h s).rep_conn h.partner_id ≡ true)
      × ((partnered h s).sizes h.partner_id ≡ proposed h)
unfolding make_relation_server make_partner_server
partnered-ready h s = (
  update_self s.rep_conn h.partner_id true,
  update_self (make_relation_server true h.partner_id h.disk (joined h s)).sizes h.partner_id
      (proposed h),
)

module _ {W : Type 0} (ops : Posix W) where
  -- A partnership within the bounds of the tables is made, and the SYN that follows is answered by
  -- SYN_ACK with the sizes that the partnership was made with, whatever the SYN proposes: this header is
  -- what is sent, once, to the partner's socket; the
  -- server's relation has these sizes.
  pub syn_received-sizes :
      (h syn : Header) (s : Server) (w : W)
      → h.partner_id < max_partners
      → s.ps_count < max_partners
      → syn.partner_id ≡ h.partner_id
      → (s1 : Server) × (h2 : Header) × (s2 : Server) × (w2 : W) × (make_partner h s ≡ some (h, s1))
        × (syn_received ops syn s1 w ≡ some (h2, s2, w2))
        × (w2 ≡ (ops.send (s1.partner syn.partner_id).socket_fd (header h2) w).1)
        × (h2.opcode ≡ Opcode.syn_ack)
        × (proposed h2 ≡ proposed h)
        × ((s2.relation h.partner_id).grain_size ≡ h.grain_size)
        × ((s2.relation h.partner_id).chunk_size ≡ h.chunk_size)
        × ((s2.relation h.partner_id).bitmap_size ≡ h.bitmap_size)
  unfolding syn_received
  syn_received-sizes h syn s w lt room same =
      let s1 = partnered h s in
      let (ready, sizes) = partnered-ready h s in
      let pid = syn.partner_id in
      let z = s1.sizes pid in
      let agreed : z ≡ proposed h = ap s1.sizes same ∙ sizes in
      let h2 : Header = record syn {
        bitmap_size = z.bitmap_size;
        grain_size = z.grain_size;
        chunk_size = z.chunk_size;
        opcode = Opcode.syn_ack;
      } in
      let r : Relation = record (s1.relation pid) {
        bitmap_size = z.bitmap_size;
        grain_size = z.grain_size;
        chunk_size = z.chunk_size;
      } in
      let s2 : Server = record s1 {
        relation = update s1.relation pid r;
        db = insert_into_relation pid r ∷ s1.db;
      } in
      let w2 = (ops.send (s1.partner pid).socket_fd (header h2) w).1 in
      let here : s2.relation h.partner_id ≡ r =
        ap s2.relation (sym same) ∙ update_self s1.relation pid r in
      (
        s1,
        h2,
        s2,
        w2,
        make_partner-partnered h s lt room,
        ap (λ b. if b then some (h2, s2, w2) else none) (ap s1.rep_conn same ∙ ready),
        refl,
        refl,
        agreed,
        ap (λ (r : Relation). r.grain_size) here ∙ ap (λ (z : Sizes). z.grain_size) agreed,
        ap (λ (r : Relation). r.chunk_size) here ∙ ap (λ (z : Sizes). z.chunk_size) agreed,
        ap (λ (r : Relation). r.bitmap_size) here ∙ ap (λ (z : Sizes). z.bitmap_size) agreed,
      )

  -- When the termination of a running replication has been received, no request for a chunk of that
  -- partner is answered, and none changes the server.
  pub dispatch-terminated :
      (verify_data : Header → Server → W → Option (Header × Server × W)) (block : Option ℕ)
      (a a' : Answers) (h h' : Header) (s : Server) (w w' : W)
      → h.opcode ≡ Opcode.rplc_termination
      → is_released_partner (s.partner h.partner_id).obj_state ≡ false
      → h'.opcode ≡ Opcode.data_op
      → h'.partner_id ≡ h.partner_id
      → (s1 : Server) × (dispatch ops verify_data block a a' h s w ≡ some (h, s1, w))
        × (dispatch ops verify_data block a a' h' s1 w' ≡ some (h', s1, w'))
  unfolding dispatch
  dispatch-terminated verify_data block a a' h h' s w w' end running asks same =
      let s1 = terminated h.partner_id s in
      (
        s1,
        ap (λ o. dispatched o h s w) end
            ∙ ap (λ t. some (t.0, t.1, w)) (terminate-terminated h s running),
        ap (λ o. dispatched o h' s1 w') asks
            ∙ ap some (
                get_data-released ops h' s1 w'
                  (ap s1.io same ∙ update_self s.io h.partner_id IoState.released)),
      )
    where
      dispatched : Opcode → Header → Server → W → Option (Header × Server × W)
      dispatched o h s w = elim o [
        | Opcode.bitmap_metadata ↦ get_bitmap ops block a a' h s w
        | Opcode.data_op ↦ some (get_data ops h s w)
        | Opcode.make_partner ↦ elim (make_partner h s) [
          | none ↦ none
          | some (h1, s1) ↦ some (h1, s1, w)
        ]
        | Opcode.remove_partner ↦
            (let (h1, s1) = remove_partner h s in
              some (h1, s1, ops.hang_up (s.partner h.partner_id).socket_fd w))
        | Opcode.rm_relation ↦ some (h, release_relation h.relation_id s, w)
        | Opcode.syn ↦ syn_received ops h s w
        | Opcode.ack ↦ some (h, s, w)
        | Opcode.rplc_termination ↦ (let (h1, s1) = terminate h s in some (h1, s1, w))
        | Opcode.data_req ↦ data_req ops h s w
        | Opcode.verify_data ↦ verify_data h s w
        | _ ↦ some (h, s, w)
      ]

-- ===== src/User/Client/Commands/Keys.antt =====
-- The ids in the client's table of partners under every command.
use greko.Base.{
  ℕ, ◌≡◌, ◌≢◌, refl, true, false, Option, some, List, arith, update, Bool, if◌then◌else◌, if_holds,
  bind_gives, require_step, ltb, ◌==◌, ◌&&◌,
}
use greko.User.Types.{Bytes, Header, Opcode}
use greko.User.Server.{Partner, max_partners, is_in_use}
use greko.User.Client.{
  Daemon, System, Replication, set_hdr, relation_client_obj_destroy, partner_client_obj_destroy,
  is_client_partner_id_valid, partner_client_obj_create, make_partner_client,
  ebdr_conn_client_setup, get_new_partner_client_id,
}
use greko.User.Client.Keys.{
  IsKeyed, SameIds, SameIds-IsKeyed, then-IsKeyed, end-IsKeyed, ebdr_conn_client_setup-SameIds,
  partner_client_obj_create-SameIds, make_partner_client-IsKeyed,
  relation_client_obj_destroy-SameIds, partner_client_obj_destroy-IsKeyed,
}
use greko.User.Client.Session.{Md5, send_hdr}
use greko.User.Client.Session.Keys.{send_hdr-SameIds, make_relation_with_server-SameIds}
use greko.User.Client.Metadata.Keys.{request_server_for_metadata-SameIds}
use greko.User.Client.Commands.{
  join_server, make_partner_with_server, remove_relation_in_client, remove_partner_with_server,
  resync_init, pause_resync, resume_resync, is_server_valid, Request, serve, int_to_long,
}

resync_init-SameIds :
    (pid bit_pos : ℕ) (s t : Daemon) → resync_init pid bit_pos s ≡ some t → SameIds s t
unfolding resync_init
resync_init-SameIds pid bit_pos s t e i = ground arith

pause_resync-SameIds : (pid : ℕ) (s : Daemon) → SameIds s (pause_resync pid s)
unfolding pause_resync
pause_resync-SameIds pid s i = ground arith

resume_resync-SameIds : (pid : ℕ) (s t : Daemon) → resume_resync pid s ≡ some t → SameIds s t
unfolding resume_resync
resume_resync-SameIds pid s t e i = grind arith

module _ {W : Type 0} (sys : System W) where
  remove_relation_in_client-SameIds :
      (rid : ℕ) (s : Daemon) (w : W) (t : Daemon) (w1 : W)
      → remove_relation_in_client sys rid s w ≡ some (t, w1)
      → SameIds s t
  unfolding remove_relation_in_client
  remove_relation_in_client-SameIds rid s w t w1 e i =
      grind (arith, relation_client_obj_destroy-SameIds rid s i)

  remove_partner_with_server-IsKeyed :
      (pid : ℕ) (s : Daemon) (w : W) (t : Daemon) (w1 : W)
      → IsKeyed s
      → remove_partner_with_server sys pid s w ≡ some (t, w1)
      → IsKeyed t
  unfolding remove_partner_with_server
  remove_partner_with_server-IsKeyed pid s w t w1 v e =
      let h : Header = record (s.hdr pid) { opcode = Opcode.remove_partner; partner_id = pid } in
      let s0 = set_hdr pid h s in
      then-IsKeyed (send_hdr sys pid (s.conn pid).sock_fd s0 w) _ t w1
        (λ a b e1.
          SameIds-IsKeyed s0 a (send_hdr-SameIds sys pid (s.conn pid).sock_fd s0 w a b e1) v)
        (λ a b u e1.
          let r = a.relation pid in
          let s2 =
            if r.partner_id == pid && is_in_use r.obj_state
            then relation_client_obj_destroy pid a
            else a in
          let u2 : IsKeyed s2 =
            if_holds IsKeyed (r.partner_id == pid && is_in_use r.obj_state)
              (relation_client_obj_destroy pid a) a
              (λ b1.
                SameIds-IsKeyed a (relation_client_obj_destroy pid a)
                  (relation_client_obj_destroy-SameIds pid a) u)
              (λ b1. u) in
          end-IsKeyed (partner_client_obj_destroy sys pid s2 b) t w1 e1
            (partner_client_obj_destroy-IsKeyed sys pid s2 b u2))
        (require_step (ltb pid max_partners) _ e)

  join_server-IsKeyed :
      (pid : ℕ) (ip : List ℕ) (bandwidth : ℕ) (disk : List ℕ)
      (bitmap_size grain_size chunk_size : ℕ) (s : Daemon) (w : W) (t : Daemon) (w1 : W)
      → IsKeyed s
      → join_server sys pid ip bandwidth disk bitmap_size grain_size chunk_size s w ≡ some (t, w1)
      → IsKeyed t
  unfolding join_server
  join_server-IsKeyed pid ip bandwidth disk bitmap_size grain_size chunk_size s w t w1 v e =
      let r : Replication = record (s.replication pid) { rep_conn = true } in
      let s0 : Daemon = record s { replication = update s.replication pid r } in
      bind_gives (partner_client_obj_create pid s0) _
        (λ s1 y e1.
          let sock = (s1.conn pid).sock_fd in
          let s2 = make_partner_client ip bandwidth sock pid s1 in
          let h : Header = record (s2.hdr pid) {
            opcode = Opcode.make_partner;
            bandwidth = bandwidth;
            partner_id = pid;
            dest_ip = ip;
            disk = disk;
            bitmap_size = bitmap_size;
            grain_size = grain_size;
            chunk_size = chunk_size;
          } in
          let s3 = set_hdr pid h s2 in
          SameIds-IsKeyed s3 t (send_hdr-SameIds sys pid sock s3 w t w1 e1) (
            make_partner_client-IsKeyed ip bandwidth sock pid s1
              (SameIds-IsKeyed s0 s1 (partner_client_obj_create-SameIds pid s0 s1 y) v)))
        e

  make_partner_with_server-IsKeyed :
      (ip : List ℕ) (bandwidth : ℕ) (disk : List ℕ) (bitmap_size grain_size chunk_size : ℕ)
      (s : Daemon) (w : W) (t : Daemon) (w1 : W)
      → IsKeyed s
      → make_partner_with_server sys ip bandwidth disk bitmap_size grain_size chunk_size s w
        ≡ some (t, w1)
      → IsKeyed t
  unfolding make_partner_with_server
  make_partner_with_server-IsKeyed ip bandwidth disk bitmap_size grain_size chunk_size s w t w1 v
        e =
      bind_gives (get_new_partner_client_id s) _
        (λ pid y.
          then-IsKeyed (ebdr_conn_client_setup sys ip pid s w) _ t w1
            (λ a b e1. SameIds-IsKeyed s a (ebdr_conn_client_setup-SameIds sys ip pid s w a b e1) v)
            (λ a b u.
              join_server-IsKeyed pid ip (int_to_long bandwidth) disk bitmap_size grain_size
                chunk_size a b t w1 u))
        e

module _ {W : Type 0} (sys : System W) (md5sum : Md5 W) (validate_ipaddr : List ℕ → Bool)
    (servers : ℕ → Partner) (buff : Bytes) (mk_from_db : Daemon → W → Option (Daemon × W)) where
  -- A test on the request, which is only logged when the test fails.
  guarded-IsKeyed :
      (b : Bool) (x : Option (Daemon × W)) (s : Daemon) (w : W) (t : Daemon) (w1 : W)
      → IsKeyed s
      → (x ≡ some (t, w1) → IsKeyed t)
      → (if b then x else some (s, w)) ≡ some (t, w1)
      → IsKeyed t
  guarded-IsKeyed true x s w t w1 v h e = h e
  guarded-IsKeyed false x s w t w1 v h e = end-IsKeyed (s, w) t w1 e v

  -- A command other than the reading of the tables from the database, `z`, that does not stop the
  -- process, keeps every entry of the table of partners at the id 0 or that of its place.
  pub serve-IsKeyed :
      (r : Request) (s : Daemon) (w : W) (t : Daemon) (w1 : W)
      → r ≢ Request.reload
      → IsKeyed s
      → serve sys md5sum validate_ipaddr servers buff mk_from_db r s w ≡ some (t, w1)
      → IsKeyed t
  unfolding serve
  serve-IsKeyed (Request.metadata pid) s w t w1 ne v =
      guarded-IsKeyed (is_client_partner_id_valid pid s) _ s w t w1 v
        (λ e. SameIds-IsKeyed s t (request_server_for_metadata-SameIds sys pid s w t w1 e) v)
  serve-IsKeyed (Request.remove_partner pid) s w t w1 ne v =
      guarded-IsKeyed (is_server_valid servers pid) _ s w t w1 v
        (remove_partner_with_server-IsKeyed sys pid s w t w1 v)
  serve-IsKeyed (Request.remove_relation rid) s w t w1 ne v =
      λ e. SameIds-IsKeyed s t (remove_relation_in_client-SameIds sys rid s w t w1 e) v
  serve-IsKeyed (Request.resync pid) s w t w1 ne v =
      guarded-IsKeyed (is_client_partner_id_valid pid s) _ s w t w1 v (
        bind_gives (resync_init pid 0 s) _ (λ a y e.
          end-IsKeyed (a, w) t w1 e (SameIds-IsKeyed s a (resync_init-SameIds pid 0 s a y) v)))
  serve-IsKeyed (Request.pause pid) s w t w1 ne v =
      guarded-IsKeyed (is_client_partner_id_valid pid s) _ s w t w1 v (λ e.
        end-IsKeyed (pause_resync pid s, w) t w1 e
          (SameIds-IsKeyed s (pause_resync pid s) (pause_resync-SameIds pid s) v))
  serve-IsKeyed (Request.resume pid) s w t w1 ne v =
      guarded-IsKeyed (is_client_partner_id_valid pid s) _ s w t w1 v (
        bind_gives (resume_resync pid s) _ (λ a y e.
          end-IsKeyed (a, w) t w1 e (SameIds-IsKeyed s a (resume_resync-SameIds pid s a y) v)))
  serve-IsKeyed (Request.make_partner ip bandwidth disk bitmap_size grain_size chunk_size) s w t w1
        ne v =
      guarded-IsKeyed (validate_ipaddr ip) _ s w t w1 v (
        make_partner_with_server-IsKeyed sys ip bandwidth disk bitmap_size grain_size chunk_size s w
          t w1 v)
  serve-IsKeyed (Request.make_relation pid role disk bitmap_size grain_size chunk_size) s w t w1 ne
        v =
      guarded-IsKeyed (is_client_partner_id_valid pid s) _ s w t w1 v (λ e.
        SameIds-IsKeyed s t
          (make_relation_with_server-SameIds sys md5sum pid role disk bitmap_size grain_size
            chunk_size buff s w t w1 e)
          v)
  serve-IsKeyed Request.reload s w t w1 ne v = absurd (ne refl)

-- ===== src/User/Client/Metadata/Keys.antt =====
-- The ids in the client's table of partners when a bitmap is asked for.
use greko.Base.{ℕ, ◌≡◌, some, arith, update, ◌>>=◌, if◌then◌else◌, if_holds, ◌∙◌}
use greko.User.Types.{Header, Opcode, ObjectState}
use greko.User.Client.{Daemon, System, ClientBitmap, set_hdr, bitmap_client_create}
use greko.User.Client.Keys.{SameIds, then-SameIds, bitmap_client_create-SameIds}
use greko.User.Client.Session.{send_hdr}
use greko.User.Client.Session.Keys.{send_hdr-SameIds}
use greko.User.Client.Metadata.{
  reuse_client, receive_bitmap, request_server_for_metadata, is_paused_object,
}

module _ {W : Type 0} (sys : System W) where
  reuse_client-SameIds : (pid : ℕ) (s : Daemon) → SameIds s (reuse_client sys pid s)
  unfolding reuse_client
  reuse_client-SameIds pid s i = ground arith

  receive_bitmap-SameIds :
      (pid : ℕ) (s : Daemon) (w : W) (t : Daemon) (w1 : W)
      → receive_bitmap sys pid s w ≡ some (t, w1)
      → SameIds s t
  unfolding receive_bitmap
  receive_bitmap-SameIds pid s w t w1 e i = grind arith

  -- The request that is made of a bitmap which was allocated.
  ask-SameIds :
      (pid : ℕ) (a : Daemon) (b : W) (t : Daemon) (w1 : W)
      → (let h : Header = record (a.hdr pid) {
        opcode = Opcode.bitmap_metadata;
        partner_id = pid;
      } in
          let s2 = reuse_client sys pid (set_hdr pid h a) in
          let m : ClientBitmap = record (s2.bitmap pid) { obj_state = ObjectState.in_use } in
          let s3 : Daemon = record s2 { bitmap = update s2.bitmap pid m } in
          if is_paused_object (s2.bitmap pid).obj_state then some (s2, b) else (do
            (s4, w4) ← send_hdr sys pid (s3.partner pid).socket_fd s3 b
            receive_bitmap sys pid s4 w4))
        ≡ some (t, w1)
      → SameIds a t
  ask-SameIds pid a b t w1 =
      let h : Header = record (a.hdr pid) { opcode = Opcode.bitmap_metadata; partner_id = pid } in
      let s2 = reuse_client sys pid (set_hdr pid h a) in
      let m : ClientBitmap = record (s2.bitmap pid) { obj_state = ObjectState.in_use } in
      let s3 : Daemon = record s2 { bitmap = update s2.bitmap pid m } in
      if_holds (λ x. x ≡ some (t, w1) → SameIds a t) (is_paused_object (s2.bitmap pid).obj_state) _
        _ (λ p e i. grind (arith, reuse_client-SameIds pid (set_hdr pid h a) i))
        (λ p e i.
          then-SameIds s3 (send_hdr sys pid (s3.partner pid).socket_fd s3 b)
            (λ (s4, w4). receive_bitmap sys pid s4 w4) t w1
            (send_hdr-SameIds sys pid (s3.partner pid).socket_fd s3 b)
            (λ c d. receive_bitmap-SameIds pid c d t w1) e i
          ∙ reuse_client-SameIds pid (set_hdr pid h a) i)

  pub request_server_for_metadata-SameIds :
      (pid : ℕ) (s : Daemon) (w : W) (t : Daemon) (w1 : W)
      → request_server_for_metadata sys pid s w ≡ some (t, w1)
      → SameIds s t
  unfolding request_server_for_metadata
  request_server_for_metadata-SameIds pid s w t w1 =
      then-SameIds s (bitmap_client_create sys pid s w) _ t w1
        (bitmap_client_create-SameIds sys pid s w) (λ a b. ask-SameIds pid a b t w1)

-- ===== src/User/Client/Commands/Joining.antt =====
-- The partner that the client makes with a server, `make_partner_with_server` of
-- user/atdr_linux/atdr_daemon.c, and the entry of the table that it takes.
use greko.Base.{
  ℕ, zero, suc, ◌+◌, ◌≤◌, ◌<◌, ◌≡◌, ◌≢◌, refl, sym, ap, ◌∙◌, true, false, some, List, arith,
  ==_cases, Bool-cases, inl, inr, ◌==◌, update, update_self, update_ne,
}
use greko.User.Types.{PartnerState}
use greko.User.Server.{Partner, max_partners}
use greko.User.Client.{
  Daemon, System, is_fresh, first_fresh, get_new_partner_client_id, partner_client_obj_create,
  make_partner_client, ebdr_conn_client_setup, int_ltb,
}
use greko.User.Client.Session.{send_hdr}
use greko.User.Client.Commands.{int_to_long, join_server, make_partner_with_server}

first_fresh-some :
    (partner : ℕ → Partner) (n i k : ℕ)
    → first_fresh partner n i ≡ some k
    → (i ≤ k)
      × (k < i + n)
      × (is_fresh (partner k).obj_state ≡ true)
      × ((j : ℕ) → i ≤ j → j < k → is_fresh (partner j).obj_state ≡ false)
unfolding first_fresh
first_fresh-some partner zero i k e = absurd (cc e)
first_fresh-some partner (suc n) i k e = elim (Bool-cases (is_fresh (partner i).obj_state)) [
  | inl fresh ↦
      let here : i ≡ k = grind arith in
      (
        omega (arith, here),
        omega (arith, here),
        ap (λ x. is_fresh (partner x).obj_state) (sym here) ∙ fresh,
        λ j le lt. absurd (omega (arith, here)),
      )
  | inr taken ↦
      let later : first_fresh partner n (suc i) ≡ some k = grind arith in
      let (lo, hi, fresh, before) = first_fresh-some partner n (suc i) k later in
      (
        omega arith,
        omega arith,
        fresh,
        λ j le lt. elim (==_cases j i) [
          | inl same ↦ ap (λ x. is_fresh (partner x).obj_state) same ∙ taken
          | inr other ↦ before j (omega arith) lt
        ],
      )
]

room_left : (n : ℕ) → n < max_partners → int_ltb n max_partners ≡ true
room_left n lt = ground arith

==_self : (n : ℕ) → (n == n) ≡ true
==_self n = ground arith

module _ {W : Type 0} (sys : System W) where
  -- When the table has an entry that is neither in use nor released, the counter is below the table's
  -- size, and the server accepts the connection, a partner is made: the first such entry gets its own
  -- index as its id, the state in use, the address, the bandwidth as an `unsigned long` and the socket;
  -- the other entries are as they were.
  pub make_partner_with_server-joins :
      (ip : List ℕ) (bandwidth : ℕ) (disk : List ℕ) (bitmap_size grain_size chunk_size : ℕ)
      (s : Daemon) (w : W) (pid sock : ℕ)
      → get_new_partner_client_id s ≡ some pid
      → s.pc_count < max_partners
      → (sys.socket w).0 ≡ some sock
      → (sys.connect sock ip (sys.socket w).1).0 ≡ true
      → (t : Daemon) × (w1 : W) × (make_partner_with_server sys ip bandwidth disk bitmap_size
            grain_size chunk_size s w
          ≡ some (t, w1))
        × (t.partner pid ≡ record {
          id = pid;
          ip = ip;
          bandwidth = int_to_long bandwidth;
          is_active = true;
          obj_state = PartnerState.in_use;
          socket_fd = sock;
        })
        × ((j : ℕ) → j ≢ pid → t.partner j ≡ s.partner j)
        × (is_fresh (s.partner pid).obj_state ≡ true)
        × ((j : ℕ) → j < pid → is_fresh (s.partner j).obj_state ≡ false)
  unfolding make_partner_with_server join_server partner_client_obj_create make_partner_client
      ebdr_conn_client_setup send_hdr get_new_partner_client_id
  make_partner_with_server-joins ip bandwidth disk bitmap_size grain_size chunk_size s w pid sock
        found few made connected =
      let (lo, hi, fresh, before) = first_fresh-some s.partner max_partners 0 pid found in
      let p : Partner = record (s.partner pid) { is_active = true } in
      let f = update s.partner pid p in
      let q : Partner = record {
        id = pid;
        ip = ip;
        bandwidth = int_to_long bandwidth;
        is_active = true;
        obj_state = PartnerState.in_use;
        socket_fd = sock;
      } in
      rw (found, made, connected, room_left s.pc_count few, ==_self pid)
        (
          _,
          _,
          refl,
          update_self f pid q,
          (λ j ne. update_ne f pid j q ne ∙ update_ne s.partner pid j p ne),
          fresh,
          λ j lt. before j (omega arith) lt,
        )

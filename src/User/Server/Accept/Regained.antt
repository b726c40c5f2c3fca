-- ===== src/User/Server/Accept/Regained.antt =====
-- A client whose connection failed during a resynchronisation, and which connects again: the
-- receiving and the accepting thread of atdr_conn_server.c.
use greko.Base.{
  ℕ, zero, suc, ◌+◌, ◌≤◌, ◌<◌, ◌≡◌, ◌≢◌, refl, sym, ap, ◌∙◌, true, false, some, ltb, leb, ◌==◌,
  arith, update_self, dec_lt, >>=-some, ◌∷◌, List,
}
use mathlib.Core.Path.{subst}
use greko.User.Types.{Header, Opcode, ObjectState}
use greko.User.Posix.{Posix}
use greko.User.Server.{Server, Partner, max_partners}
use greko.User.Server.Receiving.{recv_failed, pause_receiving}
use greko.User.Server.Accept.{
  Accepting, is_waiting, is_recovering, resume_conn, choose_pid, connected, accept_client,
}
use greko.User.Client.Metadata.{is_paused_object}
use greko.User.Database.{Sql}
use greko.User.Database.Rows.{retrieve_from_partner}

-- The loop passes over a partner id.
abbrev pub PassesOver : ℕ → ℕ → Accepting → Type 0
PassesOver q rows a =
    (is_waiting q a ≡ false)
    × (is_recovering q a ≡ false)
    × (leb rows a.server.total_conn ≡ false)
    × (a.server.partner_created q ≡ true)

choose_pid-here :
    (n pid rows fd : ℕ) (a : Accepting)
    → pid < max_partners
    → is_waiting pid a ≡ true
    → choose_pid (suc n) pid rows fd a ≡ some (pid, resume_conn pid fd a)
unfolding choose_pid
choose_pid-here n pid rows fd a lt here =
    let there : ltb pid max_partners ≡ true = ground arith in rw (there, here) refl

choose_pid-later :
    (n q rows fd : ℕ) (a : Accepting)
    → q < max_partners
    → PassesOver q rows a
    → choose_pid (suc n) q rows fd a ≡ choose_pid n (suc q) rows fd a
unfolding choose_pid
choose_pid-later n q rows fd a lt (w, r, t, c) =
    let there : ltb q max_partners ≡ true = ground arith in rw (there, w, r, t, c) refl

-- The first partner id that waits, when all before it are passed over.
choose_pid-waiting :
    (n pid q rows fd : ℕ) (a : Accepting)
    → q ≤ pid
    → pid < q + n
    → pid < max_partners
    → ((k : ℕ) → q ≤ k → k < pid → PassesOver k rows a)
    → is_waiting pid a ≡ true
    → choose_pid n q rows fd a ≡ some (pid, resume_conn pid fd a)
choose_pid-waiting zero pid q rows fd a le hi lt over here = absurd (omega (arith, le, hi))
choose_pid-waiting (suc n) pid q rows fd a le hi lt over here = elim (dec_lt q pid) [
  | yes before ↦
      choose_pid-later n q rows fd a (omega (arith, before, lt)) (over q (omega arith) before)
      ∙ choose_pid-waiting n pid (suc q) rows fd a (omega (arith, before)) (omega (arith, hi)) lt
          (λ k ge. over k (omega (arith, ge))) here
  | no at ↦
      let same : pid ≡ q = omega (arith, at, le) in
      subst (λ q. choose_pid (suc n) q rows fd a ≡ some (pid, resume_conn pid fd a)) same
        (choose_pid-here n pid rows fd a lt here)
]

-- What the client that has regained its connection is given.
pub record Regained (pid fd : ℕ) (s : Server) (a : Accepting) : Type 0 where
  pub thread : (rest : List (ℕ × ℕ)) × (a.threads ≡ (pid, fd) ∷ rest)
  pub conn_fd : (a.server.conn pid).conn_fd ≡ some fd
  pub resumed : (a.server.conn pid).obj_state ≡ ObjectState.resume
  pub socket_fd : (a.server.partner pid).socket_fd ≡ fd
  pub served : a.server.sock_recovery pid ≡ false
  pub others :
      (q : ℕ)
      → q ≢ pid
      → q < max_partners
      → (a.server.conn q ≡ s.conn q) × (a.server.sock_recovery q ≡ s.sock_recovery q)

-- What the failure leaves in the tables.
abbrev IsPaused : ℕ → Server → Server → Type 0
IsPaused pid s t =
    (is_paused_object (t.conn pid).obj_state ≡ true)
    × (t.sock_recovery pid ≡ true)
    × ((q : ℕ) → q ≢ pid → (t.conn q ≡ s.conn q) × (t.sock_recovery q ≡ s.sock_recovery q))

recv_failed-IsPaused :
    {W : Type 0} (ops : Posix W) (h : Header) (s : Server) (w : W)
    → h.opcode ≡ Opcode.data_op
    → IsPaused h.partner_id s (recv_failed ops h s w).0
unfolding recv_failed pause_receiving
recv_failed-IsPaused ops h s w e =
    rw e (ground arith, ground arith, λ q ne. (ground arith, ground arith))

-- The accepting state after the resuming, with the thread.
abbrev regained : ℕ → ℕ → (ℕ → Partner) → Accepting → Accepting
regained pid fd partner a =
    let a2 = resume_conn pid fd (connected fd partner a) in
    record a2 { threads = (a2.slot_pid pid, fd) ∷ a2.threads }

connected-waiting :
    (pid fd : ℕ) (partner : ℕ → Partner) (a : Accepting) (s : Server)
    → pid < max_partners
    → IsPaused pid s a.server
    → is_waiting pid (connected fd partner a) ≡ true
connected-waiting pid fd partner a s lt (paused, waits, others) = ground arith

regained-Regained :
    (pid fd : ℕ) (partner : ℕ → Partner) (a : Accepting) (s : Server)
    → pid < max_partners
    → IsPaused pid s a.server
    → Regained pid fd s (regained pid fd partner a)
unfolding resume_conn
regained-Regained pid fd partner a s lt (paused, waits, others) = record {
  thread = (a.threads, ap (λ p. (p, fd) ∷ a.threads) (update_self a.slot_pid pid pid));
  conn_fd = ground arith;
  resumed = ground arith;
  socket_fd = ground arith;
  served = ground arith;
  others = λ q ne small.
      let (conn, recovery) = others q ne in (ground arith ∙ conn, ground arith ∙ recovery);
}

module _ {D : Type 0} (sql : Sql D) {W : Type 0} (ops : Posix W) where
  -- The receiving of a message fails after the client had asked for data, and a client connects
  -- next. If the database holds at least as many partners as the id of the header's partner, and
  -- the loop passes over every partner before it, which are thus all created and neither wait nor
  -- recover, and the count of connections, which this loss has not lowered, is below the number of
  -- partners, then the new connection is given to that partner: a receiving thread is created for
  -- its id and the new socket, its connection is resumed with the socket, and it waits no longer;
  -- the connections of the other partners are as they were.
  pub accept_client-regains :
      (h : Header) (w : W) (fd rows : ℕ) (partner : ℕ → Partner) (a : Accepting) (s : Server)
      (d d1 : D)
      → h.opcode ≡ Opcode.data_op
      → h.partner_id < max_partners
      → a.server ≡ (recv_failed ops h s w).0
      → retrieve_from_partner sql a.server.partner d ≡ some (rows, partner, d1)
      → 0 < rows
      → h.partner_id ≤ rows
      → ((k : ℕ) → k < h.partner_id → PassesOver k rows (connected fd partner a))
      → (a1 : Accepting) × (accept_client sql fd a d ≡ some (a1, d1))
        × Regained h.partner_id fd s a1
  unfolding accept_client
  accept_client-regains h w fd rows partner a s d d1 op lt failed read some_rows le over =
      let pid = h.partner_id in
      let paused : IsPaused pid s a.server =
        subst (IsPaused pid s) (sym failed) (recv_failed-IsPaused ops h s w op) in
      let waits = connected-waiting pid fd partner a s lt paused in
      let chosen =
        choose_pid-waiting (suc rows) pid 0 rows fd (connected fd partner a) (omega arith)
          (omega (arith, le)) lt (λ k ge. over k) waits in
      let any : (rows == 0) ≡ false = ground arith in
      let there : ltb pid max_partners ≡ true = ground arith in
      (
        regained pid fd partner a,
        >>=-some _ read ∙ rw any (>>=-some _ chosen ∙ rw there refl),
        regained-Regained pid fd partner a s lt paused,
      )

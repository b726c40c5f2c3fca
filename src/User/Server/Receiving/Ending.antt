-- ===== src/User/Server/Receiving/Ending.antt =====
-- When the receiving loop of atdr_conn_server.c comes to its end.
use greko.Base.{ℕ, zero, suc, ◌≡◌, refl, ap, ◌∙◌, Option, none, some}
use greko.User.Types.{Header}
use greko.User.Posix.{Posix}
use greko.User.Server.{Server}
use greko.User.Server.Receiving.{Received, failed, closed, got, Leaving, recv_failed, receive}

-- What a thread that has returned leaves.
abbrev left_by : {W : Type 0} → Server → W → Leaving W → Server × W
left_by s w (Leaving.returned s1 w1) = (s1, w1)
left_by s w _ = (s, w)

module _ {W : Type 0} (ops : Posix W) (recv : ℕ → Header → W → Received × W)
    (handle : Header → Server → W → Option (Header × Server × W)) (sock : ℕ) where
  -- The rest of a round, behind what `recv` gave.
  abbrev behind : ℕ → Header → Server → Received × W → Leaving W
  behind n h s (r, w1) = elim r [
    | failed ↦ (let (s2, w2) = recv_failed ops h s w1 in Leaving.returned s2 w2)
    | closed ↦ elim (handle h s w1) [
      | none ↦ Leaving.stopped
      | some (h2, s2, w2) ↦ receive ops recv handle sock n h2 s2 w2
    ]
    | got h1 ↦ elim (handle h1 s w1) [
      | none ↦ Leaving.stopped
      | some (h2, s2, w2) ↦ receive ops recv handle sock n h2 s2 w2
    ]
  ]

  -- The header that is handled after a call of `recv` that does not fail.
  abbrev pub message : Received → Header → Option Header
  message failed h = none
  message closed h = some h
  message (got h1) h = some h1

  -- So many calls of `recv` do not fail and their messages are answered, and then one fails; the last two
  -- are what `recv_failed` leaves.
  pub data Fails : ℕ → Header → Server → W → Server → W → Type 0 where
    now :
        (h : Header) (s : Server) (w w1 : W) (s2 : Server) (w2 : W)
        → recv sock h w ≡ (failed, w1)
        → recv_failed ops h s w1 ≡ (s2, w2)
        → Fails 0 h s w s2 w2
    later :
        (n : ℕ) (h h1 h2 : Header) (s s2 : Server) (w w1 w2 : W) (r : Received) (s3 : Server)
        (w3 : W)
        → recv sock h w ≡ (r, w1)
        → message r h ≡ some h1
        → handle h1 s w1 ≡ some (h2, s2, w2)
        → Fails n h2 s2 w2 s3 w3
        → Fails (suc n) h s w s3 w3

  -- A message is handled, and the loop goes on.
  abbrev goes_on : ℕ → Option (Header × Server × W) → Leaving W
  goes_on n m = elim m [
    | none ↦ Leaving.stopped
    | some (h2, s2, w2) ↦ receive ops recv handle sock n h2 s2 w2
  ]

  -- A peer that has closed its end, while the last message is one whose handler always answers.
  pub record Repeating (h : Header) : Type 0 where
    pub recv_closed : (w : W) → (w1 : W) × (recv sock h w ≡ (Received.closed, w1))
    pub handled :
        (s : Server) (w : W) → (s2 : Server) × (w2 : W) × (handle h s w ≡ some (h, s2, w2))

  -- The same header is then handled in every round, and the loop never ends.
  pub receive-repeats :
      (h : Header)
      → Repeating h
      → (n : ℕ) (s : Server) (w : W)
      → (s2 : Server) × (w2 : W) × (receive ops recv handle sock n h s w ≡ Leaving.running h s2 w2)
  unfolding receive
  receive-repeats h r zero s w = (s, w, refl)
  receive-repeats h r (suc n) s w =
      let (w1, e1) = r.recv_closed w in
      let (s2, w2, e2) = r.handled s w1 in
      let (s3, w3, e3) = receive-repeats h r n s2 w2 in
      (
        s3,
        w3,
        ap (behind n h s) e1
            ∙ ap
                (λ m. elim m [
                  | none ↦ Leaving.stopped
                  | some (h2, s2, w2) ↦ receive ops recv handle sock n h2 s2 w2
                ])
                e2
            ∙ e3,
      )

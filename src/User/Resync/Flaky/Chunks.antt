-- ===== src/User/Resync/Flaky/Chunks.antt =====
-- The chunks of one grain over calls that may fail.
use greko.Base.{
  ℕ, zero, suc, ◌+◌, ◌^◌, ◌≤◌, ◌<◌, ◌≡◌, refl, sym, ◌∙◌, true, false, if◌then◌else◌, arith, dec_lt,
  Option, none, some, inl, inr, if_holds, option_holds,
}
use mathlib.Core.Path.{subst}
use greko.Memory.{Memory}
use greko.User.Types.{Bytes, PartnerState, ObjectState, buf_size_in_bytes}
use greko.User.Posix.{Posix, header}
use greko.User.Resync.{
  Client, Ending, descriptor, disconnect, observe, is_paused, is_released, request, fetch_chunk,
  copy_chunks,
}
use greko.User.Resync.Reliable.{offset}
use greko.User.Resync.Flaky.{Flaky, Near, Near-refl, Near-same, Near-trans}
use greko.User.Resync.Flaky.Transfer.{fetch_chunk-Fetched}

widened :
    (source old old' t : Bytes) (lo mid hi : ℕ)
    → old ≡ old'
    → mid ≤ hi
    → Near source old lo mid t
    → Near source old' lo hi t
widened source old old' t lo mid hi e h near =
    subst (λ o. Near source o lo hi t) e
      (Near-trans source old old t lo hi lo mid (omega arith) h (Near-refl source old lo hi) near)

module _ {W : Type 0} (ops : Posix W) (pid sock disk : ℕ) (source : Bytes) (gs capacity : ℕ)
    (target : W → Bytes) (net : Flaky ops sock disk source gs 8 capacity target)
    (small : capacity < 2 ^ 63) where
  -- The client while its connection is open, whether it is paused or not.
  pub record Ready (area : Memory) (c : Client) : Type 0 where
    pub socket : c.socket_fd ≡ some sock
    pub disk_open : c.disk_fd ≡ disk
    pub grain : c.hdr.grain_size ≡ gs
    pub chunk : c.hdr.chunk_size ≡ 8
    pub bits : c.bitmap_area ≡ some area

  -- What a run of chunks leaves between two offsets.
  abbrev pub Copied : Memory → ℕ → ℕ → Client → W → Option Ending × Client × Bytes × W → Type 0
  Copied area lo hi c w r =
      (r.0 ≡ none
        → is_paused ops pid r.1 ≡ false
        → ((x : ℕ) → lo ≤ x → x < hi → target r.3 x ≡ source x) × net.Up r.3)
      × (r.0 ≡ none → Ready area r.1)
      × Near source (target w) lo hi (target r.3)
      × (r.1.last_resynced_bit ≡ c.last_resynced_bit)

  request-Ready :
      (area : Memory) (bit chunk : ℕ) (c : Client) (w : W)
      → Ready area c
      → Ready area (observe ops pid (request ops pid bit chunk c) w)
  request-Ready area bit chunk c w s =
      if_holds (Ready area) (ops.pauses w)
        (record (request ops pid bit chunk c) { partner = PartnerState.pause })
        (request ops pid bit chunk c)
        (λ p. record {
          socket = s.socket;
          disk_open = s.disk_open;
          grain = s.grain;
          chunk = s.chunk;
          bits = s.bits;
        })
        (λ p. record {
          socket = s.socket;
          disk_open = s.disk_open;
          grain = s.grain;
          chunk = s.chunk;
          bits = s.bits;
        })

  observe-last :
      (c : Client) (w : W) → (observe ops pid c w).last_resynced_bit ≡ c.last_resynced_bit
  observe-last c w = ground arith

  stopped-Copied :
      (area : Memory) (lo hi : ℕ) (e : Ending) (c c' : Client) (b : Bytes) (w w' : W)
      → target w' ≡ target w
      → c'.last_resynced_bit ≡ c.last_resynced_bit
      → Copied area lo hi c w (some e, c', b, w')
  stopped-Copied area lo hi e c c' b w w' same last = (
    λ never. absurd (cc never),
    λ never. absurd (cc never),
    Near-same source (target w) (target w) (target w') lo hi same
        (Near-refl source (target w) lo hi),
    last,
  )

  -- A chunk, and the run that follows it.
  joined-Copied :
      (area : Memory) (lo mid hi : ℕ) (c c2 : Client) (w w2 : W)
      (r : Option Ending × Client × Bytes × W)
      → lo ≤ mid
      → mid ≤ hi
      → ((x : ℕ) → lo ≤ x → x < mid → target w2 x ≡ source x)
      → Near source (target w) lo mid (target w2)
      → c2.last_resynced_bit ≡ c.last_resynced_bit
      → Copied area mid hi c2 w2 r
      → Copied area lo hi c w r
  joined-Copied area lo mid hi c c2 w w2 r h k first near last (full, ready, near', last') = (
    λ e p.
        let (rest, up) = full e p in
        (
          λ x a z. elim (dec_lt x mid) [
            | yes q ↦ elim (near' x) [ inl same ↦ same ∙ first x a q | inr (m, n, same) ↦ same ]
            | no q ↦ rest x (omega arith) z
          ],
          up,
        ),
    ready,
    Near-trans source (target w) (target w2) (target r.3) lo hi mid hi h (omega arith)
        (Near-trans source (target w) (target w) (target w2) lo hi lo mid (omega arith) k
          (Near-refl source (target w) lo hi) near)
        near',
    last' ∙ last,
  )

  observe-hdr : (c : Client) (w : W) → (observe ops pid c w).hdr ≡ c.hdr
  observe-hdr c w = ground arith

  sent-request :
      (bit chunk : ℕ) (c : Client) (w : W)
      → net.Up w
      → let h = (observe ops pid (request ops pid bit chunk c) w).hdr in
        (ops.send sock (header h) w).0 ≡ true
        → net.Sent (offset gs 8 bit chunk) (ops.send sock (header h) w).1
  sent-request bit chunk c w up =
      subst
        (λ h.
          (ops.send sock (header h) w).0 ≡ true
          → net.Sent (offset gs 8 bit chunk) (ops.send sock (header h) w).1)
        (sym (observe-hdr (request ops pid bit chunk c) w))
        (net.send_request (request ops pid bit chunk c).hdr w up refl)

  pub copy_chunks-Copied :
      (area : Memory) (n chunk bit : ℕ) (c : Client) (buff : Bytes) (w : W)
      → Ready area c
      → net.Up w
      → offset gs 8 bit (chunk + n) ≤ capacity
      → Copied area
          (offset gs 8 bit chunk)
          (offset gs 8 bit (chunk + n))
          c
          w
          (copy_chunks ops pid n chunk bit c buff w)
  unfolding copy_chunks disconnect
  copy_chunks-Copied area zero chunk bit c buff w s up fits =
      (λ e p. (λ x lo hi. absurd (omega arith), up), λ e. s, Near-refl source (target w) _ _, refl)
  copy_chunks-Copied area (suc n) chunk bit c0 buff w s0 up fits =
      let c = observe ops pid (request ops pid bit chunk c0) w in
      let s = request-Ready area bit chunk c0 w s0 in
      let last = observe-last (request ops pid bit chunk c0) w in
      let lo = offset gs 8 bit chunk in
      let mid = offset gs 8 bit (suc chunk) in
      let hi = offset gs 8 bit (chunk + suc n) in
      let P : Option Ending × Client × Bytes × W → Type 0 = Copied area lo hi c0 w in
      let w1 = (ops.send sock (header c.hdr) w).1 in
      let after : Option ℕ → Option Ending × Client × Bytes × W = λ fd.
        let (sent, w1) = ops.send (descriptor fd) (header c.hdr) w in
        let (end, c2, b, w2) = fetch_chunk ops pid bit chunk c buff w1 in
        if is_released ops pid c
        then (some Ending.abandoned, c, buff, w)
        else (if sent
            then elim end [
              | none ↦ copy_chunks ops pid n (suc chunk) bit c2 b w2
              | some e ↦ (some e, c2, b, w2)
            ]
            else (
              some Ending.abandoned,
              record c { socket_fd = none; conn = ObjectState.pause },
              buff,
              ops.hang_up (descriptor fd) w1,
            )) in
      let again : Bytes → Client → W → Option Ending × Client × Bytes × W =
        λ b c w. copy_chunks ops pid n (suc chunk) bit c b w in
      let (end, c2, b, w2) = fetch_chunk ops pid bit chunk c buff w1 in
      let next : suc chunk + n ≡ chunk + suc n = omega arith in
      let sending : (ops.send sock (header c.hdr) w).0 ≡ true
          → P (elim end [ none ↦ again b c2 w2 | some e ↦ (some e, c2, b, w2) ]) =
        λ ok.
          let (whole, near1, kept) =
            fetch_chunk-Fetched ops pid sock disk source gs 8 capacity target net small bit chunk c
              buff w1 s.socket s.disk_open s.grain s.chunk (omega (arith, fits))
              (sent-request bit chunk c0 w up ok) in
          let near : Near source (target w) lo mid (target w2) =
            widened source (target w1) (target w) (target w2) lo (lo + buf_size_in_bytes) mid
              (net.send_keeps (header c.hdr) w) (omega arith) near1 in
          option_holds P end (again b c2 w2) (λ e. (some e, c2, b, w2))
            (λ done.
              let (same, bytes, up2) = whole done in
              joined-Copied area lo mid hi c0 c2 w w2 (again b c2 w2) (omega arith) (omega arith)
                (λ x p q. bytes x p (omega (arith, q))) near (kept ∙ last)
                (subst (λ k. Copied area mid (offset gs 8 bit k) c2 w2 (again b c2 w2)) next
                  (copy_chunks-Copied area n (suc chunk) bit c2 b w2
                    (subst (Ready area) (sym same) s) up2 (omega (arith, fits)))))
            (λ e failed. (
              λ never. absurd (cc never),
              λ never. absurd (cc never),
              widened source (target w) (target w) (target w2) lo mid hi refl (omega arith) near,
              kept ∙ last,
            )) in
      if_holds P (is_paused ops pid c) (none, c, buff, w) (after c.socket_fd)
        (λ p. (λ e q. absurd (cc (p, q)), λ e. s, Near-refl source (target w) lo hi, last))
        (λ going.
          subst (λ fd. P (after fd)) (sym s.socket)
            (if_holds P (is_released ops pid c) _ _
              (λ p. stopped-Copied area lo hi Ending.abandoned c0 c buff w w refl last)
              (λ p. if_holds P (ops.send sock (header c.hdr) w).0 _ _ sending (λ failed.
                stopped-Copied area lo hi Ending.abandoned c0 _ buff w _
                  (net.hang_up_keeps w1 ∙ net.send_keeps (header c.hdr) w) last))))

-- ===== src/User/Resync/Flaky/Transfer.antt =====
-- One chunk over calls that may fail.
use greko.Base.{
  ℕ, ◌+◌, ◌*◌, ◌%◌, ◌^◌, ◌≤◌, ◌<◌, ◌≡◌, refl, sym, ap, ap₂, ◌∙◌, Bool, true, if◌then◌else◌, arith,
  Option, none, some, ◌⊎◌, inl, inr, if_holds,
}
use mathlib.Core.Path.{subst}
use greko.User.Types.{Bytes, ObjectState, buf_size_in_bytes}
use greko.User.Posix.{Posix}
use greko.User.IoEngine.{loffset, chunk_read_client, chunk_write_client}
use greko.User.IoEngine.Calls.{chunk_read_client-holds, chunk_write_client-holds}
use greko.User.Resync.{Client, Ending, descriptor, disconnect, chunk_lba, fetch_chunk}
use greko.User.Resync.Reliable.{splice, replace, splice-replace, offset}
use greko.User.Resync.Flaky.{Flaky, Near, Near-refl, Near-same}

-- A `write` of bytes of the source at their offset, cut off somewhere.
splice-Near :
    (source b old t : Bytes) (o n : ℕ)
    → ((i : ℕ) → i < n → b i ≡ source (o + i))
    → ((x : ℕ) → (t x ≡ old x) ⊎ (t x ≡ splice o n b old x))
    → Near source old o (o + n) t
splice-Near source b old t o n same cut x = elim (cut x) [
  | inl e ↦ inl e
  | inr e ↦ at (e ∙ ap (λ f. f x) (splice-replace source b old o n same))
]
  where
    at :
        t x ≡ replace source o (o + n) old x
        → (t x ≡ old x) ⊎ ((o ≤ x) × (x < o + n) × (t x ≡ source x))
    at e = ground arith

replace-inside :
    (source t : Bytes) (lo hi x : ℕ) → lo ≤ x → x < hi → replace source lo hi t x ≡ source x
replace-inside source t lo hi x p q = ground arith

module _ {W : Type 0} (ops : Posix W) (pid sock disk : ℕ) (source : Bytes) (gs cs capacity : ℕ)
    (target : W → Bytes) (net : Flaky ops sock disk source gs cs capacity target)
    (small : capacity < 2 ^ 63) where
  -- What a write of a received buffer leaves.
  abbrev Written : ℕ → W → Bool × W → Type 0
  Written o w r =
      (r.0 ≡ true
        → ((x : ℕ) → o ≤ x → x < o + buf_size_in_bytes → target r.1 x ≡ source x) × net.Up r.1)
      × Near source (target w) o (o + buf_size_in_bytes) (target r.1)

  chunk_write_client-Written :
      (b : Bytes) (lba : ℕ) (w : W)
      → net.Up w
      → loffset lba + buf_size_in_bytes ≤ capacity
      → ((i : ℕ) → i < buf_size_in_bytes → b i ≡ source (loffset lba + i))
      → Written (loffset lba) w (chunk_write_client ops disk b buf_size_in_bytes lba w)
  chunk_write_client-Written b lba w up fits same =
      let o = loffset lba in
      let w1 = (ops.lseek disk o w).1 in
      let near : (t : Bytes)
          → Near source (target w1) o (o + buf_size_in_bytes) t
          → Near source (target w) o (o + buf_size_in_bytes) t =
        λ t. subst (λ old. Near source old o (o + buf_size_in_bytes) t) (net.lseek_keeps o w) in
      chunk_write_client-holds ops (Written o w) disk buf_size_in_bytes lba b w
        (λ found.
          let w2 = (ops.write disk b buf_size_in_bytes w1).1 in
          let (full, cut) = net.write_target o b w1 (net.seek_target o w up found) fits in
          (
            λ ok.
                let (t, up2) = full ok in
                let e = t ∙ splice-replace source b (target w1) o buf_size_in_bytes same in
                (λ x lo hi. ap (λ f. f x) e ∙ replace-inside source (target w1) o _ x lo hi, up2),
            near (target w2)
                (splice-Near source b (target w1) (target w2) o buf_size_in_bytes same cut),
          ))
        (
          λ never. absurd (cc never),
          near (target w1) (Near-refl source (target w1) o (o + buf_size_in_bytes)),
        )

  -- What one chunk leaves, with its client.
  abbrev pub Fetched : ℕ → Client → W → Option Ending × Client × Bytes × W → Type 0
  Fetched o c w r =
      (r.0 ≡ none
        → (r.1 ≡ c)
          × ((x : ℕ) → o ≤ x → x < o + buf_size_in_bytes → target r.3 x ≡ source x)
          × net.Up r.3)
      × Near source (target w) o (o + buf_size_in_bytes) (target r.3)
      × (r.1.last_resynced_bit ≡ c.last_resynced_bit)

  stopped-Fetched :
      (o : ℕ) (e : Ending) (c c' : Client) (b : Bytes) (w w' : W)
      → target w' ≡ target w
      → c'.last_resynced_bit ≡ c.last_resynced_bit
      → Fetched o c w (some e, c', b, w')
  stopped-Fetched o e c c' b w w' same last = (
    λ never. absurd (cc never),
    Near-same source (target w) (target w) (target w') o (o + buf_size_in_bytes) same
        (Near-refl source (target w) o (o + buf_size_in_bytes)),
    last,
  )

  Written-Fetched :
      (o : ℕ) (c : Client) (b : Bytes) (w w1 : W) (v : Bool × W)
      → target w1 ≡ target w
      → Written o w1 v
      → Fetched o c w (
          if v.0
          then (none, c, b, v.1)
          else (some Ending.cancelled, record c { disk = ObjectState.pause }, b, v.1))
  Written-Fetched o c b w w1 v same (full, cut) =
      let near : Near source (target w) o (o + buf_size_in_bytes) (target v.1) =
        subst (λ old. Near source old o (o + buf_size_in_bytes) (target v.1)) same cut in
      if_holds (Fetched o c w) v.0 (none, c, b, v.1)
        (some Ending.cancelled, record c { disk = ObjectState.pause }, b, v.1)
        (λ ok. (λ _. (refl, (full ok).0, (full ok).1), near, refl))
        (λ ok. (λ never. absurd (cc never), near, refl))

  pub fetch_chunk-Fetched :
      (bit chunk : ℕ) (c : Client) (buff : Bytes) (w : W)
      → c.socket_fd ≡ some sock
      → c.disk_fd ≡ disk
      → c.hdr.grain_size ≡ gs
      → c.hdr.chunk_size ≡ cs
      → offset gs cs bit chunk + buf_size_in_bytes ≤ capacity
      → net.Sent (offset gs cs bit chunk) w
      → Fetched (offset gs cs bit chunk) c w (fetch_chunk ops pid bit chunk c buff w)
  unfolding fetch_chunk disconnect
  fetch_chunk-Fetched bit chunk c buff w fd dfd g cz fits sent =
      let o = offset gs cs bit chunk in
      let lba = chunk_lba ops pid c.hdr bit chunk in
      let at : loffset lba ≡ o =
        ap₂ (λ g z. loffset ((bit * g + chunk * z) % 2 ^ 64)) g cz ∙ omega (arith, small, fits) in
      let after : Bool × Bytes × W → Option Ending × Client × Bytes × W = λ r.
        let v = chunk_write_client ops c.disk_fd r.1 buf_size_in_bytes lba r.2 in
        if r.0
        then (if v.0
            then (none, c, r.1, v.1)
            else (some Ending.cancelled, record c { disk = ObjectState.pause }, r.1, v.1))
        else (
          some Ending.abandoned,
          record c { socket_fd = none; conn = ObjectState.pause },
          r.1,
          ops.hang_up (descriptor c.socket_fd) r.2,
        ) in
      let (ok, b, w1) = ops.recv sock buff buf_size_in_bytes w in
      subst
        (λ s. Fetched o c w (after (chunk_read_client ops (descriptor s) buff buf_size_in_bytes w)))
        (sym fd)
        (chunk_read_client-holds ops (λ r. Fetched o c w (after r)) sock buf_size_in_bytes buff w
          (λ ok late.
            let (content, up) = net.recv_answer o buff w sent ok late in
            Written-Fetched o c b w w1 (chunk_write_client ops c.disk_fd b buf_size_in_bytes lba w1)
              (net.recv_keeps buff w)
              (subst (λ d. Written o w1 (chunk_write_client ops d b buf_size_in_bytes lba w1))
                (sym dfd)
                (subst (λ o. Written o w1 (chunk_write_client ops disk b buf_size_in_bytes lba w1))
                  at
                  (chunk_write_client-Written b lba w1 up (omega (arith, at, fits))
                    (λ i lt. content i lt ∙ ap (λ o. source (o + i)) (sym at))))))
          (stopped-Fetched o Ending.abandoned c _ b w _
            (ap (λ s. target (ops.hang_up (descriptor s) w1)) fd
              ∙ net.hang_up_keeps w1
              ∙ net.recv_keeps buff w)
            refl))

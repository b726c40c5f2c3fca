-- ===== src/User/Resync/Transfer.antt =====
-- The transfers of one resynchronisation over a reliable connection.
use greko.Base.{
  ℕ, zero, suc, ◌+◌, ◌*◌, ◌%◌, ◌^◌, ◌≤◌, ◌<◌, ◌≡◌, refl, ap, ap₂, ◌∙◌, Bool, true, false,
  if◌then◌else◌, arith, Option, none, some,
}
use greko.Base.Loops.{for_range}
use greko.Memory.{Memory}
use greko.User.Types.{Bytes, PartnerState, buf_size_in_bytes, sector_bytes}
use greko.User.Posix.{Posix, header}
use greko.User.IoEngine.{loffset, chunk_read_client, chunk_write_client}
use greko.User.IoEngine.Calls.{chunk_read_client-recv, chunk_write_client-write}
use greko.User.Resync.{
  Client, Ending, descriptor, disconnect, is_paused, is_released, is_completed, request, chunk_lba,
  fetch_chunk, copy_chunks,
}
use greko.User.Resync.Reliable.{Reliable, splice, replace, splice-replace, offset, chunks_replaced}

module _ {W : Type 0} (ops : Posix W) (pid sock disk : ℕ) (source : Bytes) (gs cs capacity : ℕ)
    (net : Reliable ops sock disk source gs cs capacity) (small : capacity < 2 ^ 63) where
  chunk_write_client-splice :
      (b : Bytes) (lba : ℕ) (w : W)
      → net.Up w
      → lba * sector_bytes + buf_size_in_bytes ≤ capacity
      → (w2 : W) × (chunk_write_client ops disk b buf_size_in_bytes lba w ≡ (true, w2))
        × net.Up w2
        × (net.target w2 ≡ splice (lba * sector_bytes) buf_size_in_bytes b (net.target w))
  chunk_write_client-splice b lba w up fits =
      let o = loffset lba in
      let same : o ≡ lba * sector_bytes = omega (arith, small) in
      let (found, up1, seeked, t1) = net.seek_target o w up (omega arith) in
      let w1 = (ops.lseek disk o w).1 in
      let (ok, up2, t2) = net.write_target o b w1 up1 seeked (omega arith) in
      (
        (ops.write disk b buf_size_in_bytes w1).1,
        chunk_write_client-write ops disk buf_size_in_bytes lba b w found ok,
        up2,
        t2
            ∙ ap (splice o buf_size_in_bytes b) t1
            ∙ ap (λ o. splice o buf_size_in_bytes b (net.target w)) same,
      )

  -- A chunk whose answer is on the way is received and written.
  pub fetch_chunk-replace :
      (bit chunk : ℕ) (c : Client) (buff : Bytes) (w : W)
      → c.socket_fd ≡ some sock
      → c.disk_fd ≡ disk
      → c.hdr.grain_size ≡ gs
      → c.hdr.chunk_size ≡ cs
      → offset gs cs bit chunk + buf_size_in_bytes ≤ capacity
      → net.Sent (offset gs cs bit chunk) w
      → let o = offset gs cs bit chunk in
        (b : Bytes) × (w2 : W) × (fetch_chunk ops pid bit chunk c buff w ≡ (none, c, b, w2))
        × net.Up w2
        × (net.target w2 ≡ replace source o (o + buf_size_in_bytes) (net.target w))
  unfolding fetch_chunk
  fetch_chunk-replace bit chunk c buff w fd dfd g cz fits sent =
      let (ok, late, content, up1, t1) = net.recv_answer (offset gs cs bit chunk) buff w sent in
      let b = (ops.recv sock buff buf_size_in_bytes w).1 in
      let w1 = (ops.recv sock buff buf_size_in_bytes w).2 in
      let lba = chunk_lba ops pid c.hdr bit chunk in
      let same : lba ≡ bit * gs + chunk * cs =
        ap₂ (λ g z. (bit * g + chunk * z) % 2 ^ 64) g cz ∙ omega (arith, small, fits) in
      let (w2, run, up2, t2) = chunk_write_client-splice b lba w1 up1 (omega (arith, same, fits)) in
      let read : chunk_read_client ops (descriptor c.socket_fd) buff buf_size_in_bytes w
          ≡ (true, b, w1) =
        ap (λ s. chunk_read_client ops (descriptor s) buff buf_size_in_bytes w) fd
        ∙ chunk_read_client-recv ops sock buf_size_in_bytes buff w ok late in
      let written : chunk_write_client ops c.disk_fd b buf_size_in_bytes lba w1 ≡ (true, w2) =
        ap (λ d. chunk_write_client ops d b buf_size_in_bytes lba w1) dfd ∙ run in
      (
        b,
        w2,
        rw (read, written) refl,
        up2,
        t2
            ∙ ap₂ (λ l t. splice (l * sector_bytes) buf_size_in_bytes b t) same t1
            ∙ splice-replace source b (net.target w) (offset gs cs bit chunk) buf_size_in_bytes
                content,
      )

  -- The client in the middle of a transfer.
  pub record Steady (area : Memory) (c : Client) : Type 0 where
    pub socket : c.socket_fd ≡ some sock
    pub disk_open : c.disk_fd ≡ disk
    pub grain : c.hdr.grain_size ≡ gs
    pub chunk : c.hdr.chunk_size ≡ cs
    pub going : is_paused ops pid c ≡ false
    pub io_in_use : is_released ops pid c ≡ false
    pub unfinished : is_completed ops pid c ≡ false
    pub bits : c.bitmap_area ≡ some area

  request-Steady :
      (area : Memory) (bit chunk : ℕ) (c : Client)
      → Steady area c
      → Steady area (request ops pid bit chunk c)
  request-Steady area bit chunk c s = record {
    socket = s.socket;
    disk_open = s.disk_open;
    grain = s.grain;
    chunk = s.chunk;
    going = s.going;
    io_in_use = s.io_in_use;
    unfinished = s.unfinished;
    bits = s.bits;
  }

  copy_chunks-step :
      (n chunk bit : ℕ) (c0 c2 : Client) (buff b : Bytes) (w w1 w2 : W)
      → let c = request ops pid bit chunk c0 in
        ops.pauses w ≡ false
        → is_paused ops pid c ≡ false
        → is_released ops pid c ≡ false
        → ops.send (descriptor c.socket_fd) (header c.hdr) w ≡ (true, w1)
        → fetch_chunk ops pid bit chunk c buff w1 ≡ (none, c2, b, w2)
        → copy_chunks ops pid (suc n) chunk bit c0 buff w
          ≡ copy_chunks ops pid n (suc chunk) bit c2 b w2
  unfolding copy_chunks
  copy_chunks-step n chunk bit c0 c2 buff b w w1 w2 calm going io sending run =
      let c = request ops pid bit chunk c0 in
      let after : Client
          → Bool × W
          → Option Ending × Client × Bytes × W
          → Option Ending × Client × Bytes × W =
        λ c s f.
          if is_paused ops pid c
          then (none, c, buff, w)
          else (if is_released ops pid c
              then (some Ending.abandoned, c, buff, w)
              else (if s.0
                  then elim f.0 [
                    | none ↦ copy_chunks ops pid n (suc chunk) bit f.1 f.2 f.3
                    | some e ↦ (some e, f.1, f.2, f.3)
                  ]
                  else (let (c', w') = disconnect ops pid c s.1 in
                      (some Ending.abandoned, c', buff, w')))) in
      let sent : Client → Bool × W = λ c. ops.send (descriptor c.socket_fd) (header c.hdr) w in
      ap
        (λ p.
          let c' : Client = if p then record c { partner = PartnerState.pause } else c in
          after c' (sent c') (fetch_chunk ops pid bit chunk c' buff (sent c').1))
        calm
      ∙ ap (λ s. after c s (fetch_chunk ops pid bit chunk c buff s.1)) sending
      ∙ ap (after c (true, w1)) run
      ∙ ap₂
          (λ p r.
            if p
            then (none, c, buff, w)
            else (if r
                then (some Ending.abandoned, c, buff, w)
                else copy_chunks ops pid n (suc chunk) bit c2 b w2))
          going io

  pub copy_chunks-replaced :
      (area : Memory) (n chunk bit : ℕ) (c : Client) (buff : Bytes) (w : W)
      → Steady area c
      → net.Up w
      → ((j : ℕ) → chunk ≤ j → j < chunk + n → offset gs cs bit j + buf_size_in_bytes ≤ capacity)
      → (c' : Client) × (b : Bytes) × (w' : W) × (copy_chunks ops pid n chunk bit c buff w
          ≡ (none, c', b, w'))
        × Steady area c'
        × net.Up w'
        × (net.target w' ≡ chunks_replaced source gs cs n chunk bit (net.target w))
  unfolding copy_chunks for_range
  copy_chunks-replaced area zero chunk bit c buff w s up fits = (c, buff, w, refl, s, up, refl)
  copy_chunks-replaced area (suc n) chunk bit c0 buff w s0 up fits =
      let c = request ops pid bit chunk c0 in
      let s = request-Steady area bit chunk c0 s0 in
      let w1 = (ops.send sock (header c.hdr) w).1 in
      let (ok, sent, t1) =
        net.send_request c.hdr w up refl (fits chunk (omega arith) (omega arith)) in
      let (b, w2, run, up2, t2) =
        fetch_chunk-replace bit chunk c buff w1 s.socket s.disk_open s.grain s.chunk
          (fits chunk (omega arith) (omega arith)) sent in
      let (c', b', w', rest, s', up', t') =
        copy_chunks-replaced area n (suc chunk) bit c b w2 s up2
          (λ j lo hi. fits j (omega arith) (omega arith)) in
      let sending : ops.send (descriptor c.socket_fd) (header c.hdr) w ≡ (true, w1) =
        ap (λ s. ops.send (descriptor s) (header c.hdr) w) s.socket ∙ ap (λ ok. (ok, w1)) ok in
      (
        c',
        b',
        w',
        copy_chunks-step n chunk bit c0 c buff b w w1 w2 (net.calm w) s.going s.io_in_use sending
              run
            ∙ rest,
        s',
        up',
        t'
            ∙ ap (λ t. chunks_replaced source gs cs n (suc chunk) bit t)
                (t2
                  ∙ ap
                      (replace source (offset gs cs bit chunk)
                        (offset gs cs bit chunk + buf_size_in_bytes))
                      t1),
      )

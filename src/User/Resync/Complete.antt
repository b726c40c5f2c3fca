-- ===== src/User/Resync/Complete.antt =====
-- A whole resynchronisation over a reliable connection, with chunks of one buffer.
use greko.Base.{
  ℕ, suc, ◌+◌, ◌-◌, ◌*◌, ◌/◌, ◌%◌, ◌^◌, ◌≤◌, ◌<◌, ◌≡◌, refl, ap, ◌∙◌, false, ◌&&◌, ◌==◌, ltb, leb,
  if◌then◌else◌, arith, Option, none, some, inl, inr, Bool-cases,
}
use native.Mathlib.Nat.{mul-le-mul_right}
use greko.Memory.{Memory}
use greko.User.Types.{
  Bytes, Opcode, user_bitmap_size, RepState, RepMode, PartnerState, RelationState, IoState,
  buf_size_in_bytes,
}
use greko.User.Posix.{Posix, header}
use greko.User.Resync.{
  Client, Ending, begin_resync, restart_resync, replication_terminate, observe, test_bit,
  descriptor, is_paused, is_released, is_completed, copy_grains,
}
use greko.User.Resync.Reliable.{Reliable, offset, is_wanted}
use greko.User.Resync.Transfer.{Steady}
use greko.User.Resync.Grains.{copy_grains-replaced}
use greko.User.Resync.Result.{grain_bytes, grains_replaced-byte}

-- The client after `replication_terminate`.
abbrev pub IsFinished : Client → Type 0
IsFinished c =
    (c.rep_state ≡ RepState.completed)
    × (c.partner ≡ PartnerState.released)
    × (c.relation ≡ RelationState.released)
    × (c.io ≡ IoState.released)
    × (c.last_resynced_bit ≡ 0)

grain_fits :
    (gs len capacity b j : ℕ)
    → b < len
    → j < gs / 8
    → len * grain_bytes gs ≤ capacity
    → offset gs 8 b j + buf_size_in_bytes ≤ capacity
grain_fits gs len capacity b j lt chunk fits =
    let up : suc b * gs ≤ len * gs = mul-le-mul_right gs lt in omega (arith, up, fits)

module _ {W : Type 0} (ops : Posix W) (pid sock disk : ℕ) (source : Bytes) (gs capacity : ℕ)
    (net : Reliable ops sock disk source gs 8 capacity) (small : capacity < 2 ^ 63) where
  begin_resync-Steady :
      (area : Memory) (bit : ℕ) (c : Client)
      → is_completed ops pid c ≡ false
      → c.socket_fd ≡ some sock
      → c.disk_fd ≡ disk
      → c.hdr.grain_size ≡ gs
      → c.hdr.chunk_size ≡ 8
      → is_paused ops pid c ≡ false
      → is_released ops pid c ≡ false
      → c.bitmap_area ≡ some area
      → Steady ops pid sock disk source gs 8 capacity net small area (begin_resync ops pid bit c)
  unfolding begin_resync
  begin_resync-Steady area bit c r s d g z p i a = record {
    socket = ground arith;
    disk_open = ground arith;
    grain = ground arith;
    chunk = ground arith;
    going = ground arith;
    io_in_use = ground arith;
    unfinished = ground arith;
    bits = ground arith;
  }

  begin_resync-size :
      (bit : ℕ) (c : Client) → (begin_resync ops pid bit c).bitmap_size ≡ c.bitmap_size
  unfolding begin_resync
  begin_resync-size bit c = ground arith

  replication_terminate-IsFinished :
      (area : Memory) (c : Client) (w : W)
      → Steady ops pid sock disk source gs 8 capacity net small area c
      → net.Up w
      → IsFinished (replication_terminate ops pid c w).0
        × (net.target (replication_terminate ops pid c w).1 ≡ net.target w)
  unfolding replication_terminate
  replication_terminate-IsFinished area c w s up =
      rw (s.unfinished, s.going)
        (
          (refl, refl, refl, refl, refl),
          ap
                (λ s.
                  net.target
                    (ops.send (descriptor s)
                      (header (record c.hdr { opcode = Opcode.rplc_termination })) w).1)
                s.socket
              ∙ net.send_termination (record c.hdr { opcode = Opcode.rplc_termination }) w up refl,
        )

  restart_resync-step :
      (mode : RepMode) (bit n : ℕ) (c c2 : Client) (buff : Bytes) (w w2 : W)
      → (begin_resync ops pid bit c).bitmap_size * 8 - bit ≡ n
      → copy_grains ops pid mode n bit (begin_resync ops pid bit c) buff w ≡ (none, c2, w2)
      → c.hdr.chunk_size ≡ 8
      → ops.pauses w2 ≡ false
      → is_paused ops pid c2 ≡ false
      → restart_resync ops pid bit mode buff c w ≡ (
        Ending.finished,
        (replication_terminate ops pid c2 w2).0,
        (replication_terminate ops pid c2 w2).1,
      )
  unfolding restart_resync
  restart_resync-step mode bit n c c2 buff w w2 e run z calm going =
      let end : Client → W → Ending × Client × W = λ c w. (
        Ending.finished,
        (replication_terminate ops pid c w).0,
        (replication_terminate ops pid c w).1,
      ) in
      let out : Option Ending × Client × W → Ending × Client × W = λ f. elim f.0 [
        | some e ↦ (e, f.1, f.2)
        | none ↦
            (let c3 = observe ops pid f.1 f.2 in
              if is_paused ops pid c3 then (Ending.cancelled, c3, f.2) else end c3 f.2)
      ] in
      ap
        (λ z.
          if z == 0
          then (Ending.trapped, c, w)
          else out (
              copy_grains ops pid mode ((begin_resync ops pid bit c).bitmap_size * 8 - bit) bit
                (begin_resync ops pid bit c) buff w))
        z
      ∙ ap out
          (ap (λ n. copy_grains ops pid mode n bit (begin_resync ops pid bit c) buff w) e ∙ run)
      ∙ ap
          (λ p.
            let c3 : Client = if p then record c2 { partner = PartnerState.pause } else c2 in
            if is_paused ops pid c3 then (Ending.cancelled, c3, w2) else end c3 w2)
          calm
      ∙ ap (λ p. if p then (Ending.cancelled, c2, w2) else end c2 w2) going

  -- A resynchronisation that is neither completed nor paused nor released, from the grain `bit` on,
  -- in chunks of 8 sectors and grains of whole chunks, over a connection and to a disk that work
  -- and are large enough, and that no other thread pauses, finishes. Then each byte of a grain from
  -- `bit` on whose bit is set is that of the source, for a full resynchronisation each byte of
  -- every such grain, all other bytes of the target are as before, and partner, relation and I/O
  -- object are released, with the state RESYNC_COMPLETED and no grain to resume at.
  pub restart_resync-copies :
      (mode : RepMode) (area : Memory) (bit : ℕ) (c : Client) (buff : Bytes) (w : W)
      → is_completed ops pid c ≡ false
      → c.socket_fd ≡ some sock
      → c.disk_fd ≡ disk
      → c.hdr.grain_size ≡ gs
      → c.hdr.chunk_size ≡ 8
      → is_paused ops pid c ≡ false
      → is_released ops pid c ≡ false
      → c.bitmap_area ≡ some area
      → c.bitmap_size ≤ user_bitmap_size
      → bit ≤ c.bitmap_size * 8
      → gs % 8 ≡ 0
      → gs < 2 ^ 31
      → c.bitmap_size * 8 * grain_bytes gs ≤ capacity
      → net.Up w
      → (c' : Client) × (w' : W) × (restart_resync ops pid bit mode buff c w
          ≡ (Ending.finished, c', w'))
        × ((x : ℕ)
            → net.target w' x ≡ (
                if leb (bit * grain_bytes gs) x
                  && ltb x (c.bitmap_size * 8 * grain_bytes gs)
                  && is_wanted mode area (x / grain_bytes gs)
                then source x
                else net.target w x))
        × IsFinished c'
  restart_resync-copies mode area bit c buff w r s d g z p i a len start whole lt fits up =
      let c1 = begin_resync ops pid bit c in
      let n = c.bitmap_size * 8 - bit in
      let (c2, w2, run, s2, up2, t2) =
        copy_grains-replaced ops pid sock disk source gs 8 capacity net small mode area n bit c1
          buff w (begin_resync-Steady area bit c r s d g z p i a) up lt (omega arith)
          (λ b j lo hi. grain_fits gs (c.bitmap_size * 8) capacity b j (omega arith) hi fits) in
      let (done, t3) = replication_terminate-IsFinished area c2 w2 s2 up2 in
      (
        (replication_terminate ops pid c2 w2).0,
        (replication_terminate ops pid c2 w2).1,
        restart_resync-step mode bit n c c2 buff w w2
            (ap (λ s. s * 8 - bit) (begin_resync-size bit c)) run z (net.calm w2) s2.going,
        (λ x.
            ap (λ t. t x) (t3 ∙ t2)
            ∙ grains_replaced-byte source gs mode area n bit (net.target w) x whole
            ∙ ap
                (λ e.
                  if leb (bit * grain_bytes gs) x
                    && ltb x (e * grain_bytes gs)
                    && is_wanted mode area (x / grain_bytes gs)
                  then source x
                  else net.target w x)
                (omega arith)),
        done,
      )

  -- Under the conditions of a resynchronisation from the first grain on that copies the dirty grains
  -- alone, if source and target agree on every grain whose bit is not set, they agree on every byte
  -- that the bitmap covers when it has finished.
  pub restart_resync-agrees :
      (area : Memory) (c : Client) (buff : Bytes) (w : W)
      → is_completed ops pid c ≡ false
      → c.socket_fd ≡ some sock
      → c.disk_fd ≡ disk
      → c.hdr.grain_size ≡ gs
      → c.hdr.chunk_size ≡ 8
      → is_paused ops pid c ≡ false
      → is_released ops pid c ≡ false
      → c.bitmap_area ≡ some area
      → c.bitmap_size ≤ user_bitmap_size
      → gs % 8 ≡ 0
      → gs < 2 ^ 31
      → c.bitmap_size * 8 * grain_bytes gs ≤ capacity
      → net.Up w
      → ((x : ℕ)
          → x < c.bitmap_size * 8 * grain_bytes gs
          → test_bit area (x / grain_bytes gs) ≡ false
          → net.target w x ≡ source x)
      → (c' : Client) × (w' : W) × (restart_resync ops pid 0 RepMode.no_resync buff c w
          ≡ (Ending.finished, c', w'))
        × ((x : ℕ) → x < c.bitmap_size * 8 * grain_bytes gs → net.target w' x ≡ source x)
  restart_resync-agrees area c buff w r s d g z p i a len whole lt fits up clean =
      let (c', w', run, bytes, done) =
        restart_resync-copies RepMode.no_resync area 0 c buff w r s d g z p i a len (omega arith)
          whole lt fits up in
      (
        c',
        w',
        run,
        λ x hi.
            bytes x
            ∙ (let same = clean x hi in
                elim (Bool-cases (test_bit area (x / grain_bytes gs))) [
                  | inl set ↦ rw set (ground arith)
                  | inr clear ↦ rw clear (let e = same clear in ground arith)
                ]),
      )

-- ===== src/User/Resync/Grains.antt =====
-- The grains of one resynchronisation over a reliable connection.
use greko.Base.{
  ℕ, zero, suc, ◌+◌, ◌-◌, ◌/◌, ◌%◌, ◌^◌, ◌≤◌, ◌<◌, ◌≡◌, refl, sym, ap, ap₂, ◌∙◌, Bool, true, false,
  ◌&&◌, ltb, if◌then◌else◌, arith, Option, none, some, List, ◌∷◌, inl, inr, Bool-cases, lt→ltb,
}
use native.Mathlib.Nat.{div-le_self}
use greko.Base.Loops.{for_range}
use greko.Memory.{Memory}
use greko.User.Types.{Bytes, Header, RepMode, PartnerState, buf_size_in_bytes, max_bits_len}
use greko.User.Posix.{Posix}
use greko.User.Resync.{
  Client, Ending, Update, update_into_resync, is_paused, copy_chunks, total_iterations, copy_grain,
  copy_grains,
}
use greko.User.Resync.Reliable.{
  Reliable, offset, chunks_replaced, is_wanted, grain_replaced, grains_replaced,
}
use greko.User.Resync.Transfer.{Steady, copy_chunks-replaced}

module _ {W : Type 0} (ops : Posix W) (pid sock disk : ℕ) (source : Bytes) (gs cs capacity : ℕ)
    (net : Reliable ops sock disk source gs cs capacity) (small : capacity < 2 ^ 63) where
  abbrev Going : Memory → Client → Type 0
  Going area c = Steady ops pid sock disk source gs cs capacity net small area c

  through_small :
      (x : ℕ)
      → x < 2 ^ 31
      → (let y = x % 2 ^ 32 in if ltb y (2 ^ 31) then y else y + (2 ^ 64 - 2 ^ 32)) ≡ x
  through_small x lt = ground arith

  total_iterations-div :
      (h : Header)
      → h.grain_size ≡ gs
      → h.chunk_size ≡ cs
      → gs < 2 ^ 31
      → total_iterations ops pid h ≡ gs / cs
  total_iterations-div h g z lt =
      ap₂ (λ g z. let y = g / z % 2 ^ 32 in if ltb y (2 ^ 31) then y else y + (2 ^ 64 - 2 ^ 32)) g z
      ∙ through_small (gs / cs) (omega (arith, div-le_self gs cs, lt))

  marked-Going :
      (area : Memory) (c : Client) (bit : ℕ) (u : List Update)
      → Going area c
      → Going area (record c { db = u; last_resynced_bit = bit })
  marked-Going area c bit u s = record {
    socket = s.socket;
    disk_open = s.disk_open;
    grain = s.grain;
    chunk = s.chunk;
    going = s.going;
    io_in_use = s.io_in_use;
    unfinished = s.unfinished;
    bits = s.bits;
  }

  copy_grain-wanted :
      (mode : RepMode) (area : Memory) (bit : ℕ) (c c1 : Client) (buff b : Bytes) (w w1 : W)
      → is_wanted mode area bit ≡ true
      → copy_chunks ops pid (total_iterations ops pid c.hdr) 0 bit c buff w ≡ (none, c1, b, w1)
      → copy_grain ops pid mode bit area c buff w
        ≡ (none, record c1 { db = update_into_resync bit ∷ c1.db; last_resynced_bit = bit }, b, w1)
  unfolding copy_grain
  copy_grain-wanted mode area bit c c1 buff b w w1 set run =
      let marked : Option Ending × Client × Bytes × W → Option Ending × Client × Bytes × W = λ f.
        elim f.0 [
          | none ↦ (
            none,
            record f.1 { db = update_into_resync bit ∷ f.1.db; last_resynced_bit = bit },
            f.2,
            f.3,
          )
          | some e ↦ (some e, f.1, f.2, f.3)
        ] in
      ap₂ (λ p f. if p then marked f else (none, record c { last_resynced_bit = bit }, buff, w)) set
        run

  copy_grain-unwanted :
      (mode : RepMode) (area : Memory) (bit : ℕ) (c : Client) (buff : Bytes) (w : W)
      → is_wanted mode area bit ≡ false
      → copy_grain ops pid mode bit area c buff w
        ≡ (none, record c { last_resynced_bit = bit }, buff, w)
  unfolding copy_grain
  copy_grain-unwanted mode area bit c buff w clear = rw clear refl

  pub copy_grain-replaced :
      (mode : RepMode) (area : Memory) (bit : ℕ) (c : Client) (buff : Bytes) (w : W)
      → Going area c
      → net.Up w
      → gs < 2 ^ 31
      → ((j : ℕ) → j < gs / cs → offset gs cs bit j + buf_size_in_bytes ≤ capacity)
      → (c' : Client) × (b : Bytes) × (w' : W) × (copy_grain ops pid mode bit area c buff w
          ≡ (none, c', b, w'))
        × Going area c'
        × net.Up w'
        × (net.target w' ≡ grain_replaced source gs cs mode area bit (net.target w))
  copy_grain-replaced mode area bit c buff w s up lt fits =
      let (c1, b, w1, run, s1, up1, t1) =
        copy_chunks-replaced ops pid sock disk source gs cs capacity net small area (gs / cs) 0 bit
          c buff w s up (λ j lo hi. fits j (omega arith)) in
      let run' : copy_chunks ops pid (total_iterations ops pid c.hdr) 0 bit c buff w
          ≡ (none, c1, b, w1) =
        ap (λ n. copy_chunks ops pid n 0 bit c buff w)
          (total_iterations-div c.hdr s.grain s.chunk lt)
        ∙ run in
      elim (Bool-cases (is_wanted mode area bit)) [
        | inl set ↦ (
          record c1 { db = update_into_resync bit ∷ c1.db; last_resynced_bit = bit },
          b,
          w1,
          copy_grain-wanted mode area bit c c1 buff b w w1 set run',
          marked-Going area c1 bit _ s1,
          up1,
          t1
              ∙ ap
                  (λ p.
                    if p
                    then chunks_replaced source gs cs (gs / cs) 0 bit (net.target w)
                    else net.target w)
                  (sym set),
        )
        | inr clear ↦ (
          record c { last_resynced_bit = bit },
          buff,
          w,
          copy_grain-unwanted mode area bit c buff w clear,
          marked-Going area c bit _ s,
          up,
          ap
              (λ p.
                if p
                then chunks_replaced source gs cs (gs / cs) 0 bit (net.target w)
                else net.target w)
              (sym clear),
        )
      ]

  copy_grains-step :
      (mode : RepMode) (area : Memory) (n bit : ℕ) (c c1 : Client) (buff b : Bytes) (w w1 : W)
      → ops.pauses w ≡ false
      → is_paused ops pid c ≡ false
      → c.bitmap_area ≡ some area
      → bit < max_bits_len
      → copy_grain ops pid mode bit area c buff w ≡ (none, c1, b, w1)
      → copy_grains ops pid mode (suc n) bit c buff w ≡ copy_grains ops pid mode n (suc bit) c1 b w1
  unfolding copy_grains
  copy_grains-step mode area n bit c c1 buff b w w1 calm going bits lt run =
      let after : Client
          → Memory
          → Bool
          → Option Ending × Client × Bytes × W
          → Option Ending × Client × W =
        λ c m has f.
          if is_paused ops pid c
          then (none, c, w)
          else (if ltb bit max_bits_len && has
              then elim f.0 [
                | none ↦ copy_grains ops pid mode n (suc bit) f.1 f.2 f.3
                | some e ↦ (some e, f.1, f.3)
              ]
              else (some Ending.trapped, c, w)) in
      let of : Option Memory → Memory = λ o. elim o [ none ↦ λ i. false | some m ↦ m ] in
      let has : Option Memory → Bool = λ o. elim o [ none ↦ false | some m ↦ true ] in
      ap
        (λ p.
          let c' : Client = if p then record c { partner = PartnerState.pause } else c in
          after c' (of c'.bitmap_area) (has c'.bitmap_area)
            (copy_grain ops pid mode bit (of c'.bitmap_area) c' buff w))
        calm
      ∙ ap (λ o. after c (of o) (has o) (copy_grain ops pid mode bit (of o) c buff w)) bits
      ∙ ap (after c area true) run
      ∙ ap₂
          (λ p r.
            if p
            then (none, c, w)
            else (if r && true
                then copy_grains ops pid mode n (suc bit) c1 b w1
                else (some Ending.trapped, c, w)))
          going (lt→ltb bit max_bits_len lt)

  pub copy_grains-replaced :
      (mode : RepMode) (area : Memory) (n bit : ℕ) (c : Client) (buff : Bytes) (w : W)
      → Going area c
      → net.Up w
      → gs < 2 ^ 31
      → bit + n ≤ max_bits_len
      → ((b j : ℕ) → b < bit + n → j < gs / cs → offset gs cs b j + buf_size_in_bytes ≤ capacity)
      → (c' : Client) × (w' : W) × (copy_grains ops pid mode n bit c buff w ≡ (none, c', w'))
        × Going area c'
        × net.Up w'
        × (net.target w' ≡ grains_replaced source gs cs mode area n bit (net.target w))
  unfolding copy_grains for_range
  copy_grains-replaced mode area zero bit c buff w s up lt len fits = (c, w, refl, s, up, refl)
  copy_grains-replaced mode area (suc n) bit c buff w s up lt len fits =
      let (c1, b, w1, run, s1, up1, t1) =
        copy_grain-replaced mode area bit c buff w s up lt (λ j hi. fits bit j (omega arith) hi) in
      let (c', w', rest, s', up', t') =
        copy_grains-replaced mode area n (suc bit) c1 b w1 s1 up1 lt (omega arith)
          (λ b j lo hi. fits b j (omega arith) hi) in
      (
        c',
        w',
        copy_grains-step mode area n bit c c1 buff b w w1 (net.calm w) s.going s.bits (omega arith)
              run
            ∙ rest,
        s',
        up',
        t' ∙ ap (grains_replaced source gs cs mode area n (suc bit)) t1,
      )

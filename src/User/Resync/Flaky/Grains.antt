-- ===== src/User/Resync/Flaky/Grains.antt =====
-- The grains of a resynchronisation over calls that may fail.
use greko.Base.{
  ℕ, suc, ◌+◌, ◌-◌, ◌*◌, ◌/◌, ◌%◌, ◌^◌, ◌≤◌, ◌<◌, ◌≡◌, refl, sym, ap, ap₂, ◌∙◌, true, false, ltb,
  if◌then◌else◌, arith, dec_lt, Option, none, some, List, ◌⊎◌, inl, inr, if_holds, option_holds,
}
use native.Mathlib.Nat.{mul-le-mul_right}
use mathlib.Core.Path.{subst}
use greko.Memory.{Memory}
use greko.User.Types.{Bytes, RepMode}
use greko.User.Posix.{Posix}
use greko.User.Resync.{Client, Ending, Update, is_paused, copy_chunks, copy_grain, total_iterations}
use greko.User.Resync.Reliable.{offset, is_wanted}
use greko.User.Resync.Result.{grain_bytes, in_grain}
use greko.User.Resync.Flaky.{Flaky, Near}
use greko.User.Resync.Flaky.Chunks.{Ready, Copied, copy_chunks-Copied}

-- The target in the middle of a resynchronisation: the wanted grains before `done` are those of the
-- source, and every byte is as it was in `old`, or one of a wanted grain before `len` and that of
-- the source.
pub record Partial (source old : Bytes) (gs : ℕ) (mode : RepMode) (area : Memory) (len done : ℕ)
    (t : Bytes) : Type 0 where
  pub copied :
      (x : ℕ)
      → x < done * grain_bytes gs
      → is_wanted mode area (x / grain_bytes gs) ≡ true
      → t x ≡ source x
  pub kept :
      (x : ℕ)
      → (t x ≡ old x)
        ⊎ ((x < len * grain_bytes gs)
            × (is_wanted mode area (x / grain_bytes gs) ≡ true)
            × (t x ≡ source x))

module _ (source old : Bytes) (gs : ℕ) (mode : RepMode) (area : Memory) (len : ℕ) where
  pub Partial-le :
      (done done' : ℕ) (t : Bytes)
      → done' ≤ done
      → Partial source old gs mode area len done t
      → Partial source old gs mode area len done' t
  Partial-le done done' t h p = record {
    copied = λ x lt set. p.copied x (below done' done (grain_bytes gs) x h lt) set;
    kept = p.kept;
  }
    where
      below : (a b g x : ℕ) → a ≤ b → x < a * g → x < b * g
      below a b g x h lt = let up : a * g ≤ b * g = mul-le-mul_right g h in omega (arith, up)

  -- Some bytes of a wanted grain become those of the source.
  Partial-Near :
      (bit : ℕ) (t u : Bytes)
      → bit < len
      → is_wanted mode area bit ≡ true
      → Partial source old gs mode area len bit t
      → Near source t (bit * grain_bytes gs) (suc bit * grain_bytes gs) u
      → Partial source old gs mode area len bit u
  Partial-Near bit t u lt set p near = record {
    copied = λ x a w. elim (near x) [ inl e ↦ e ∙ p.copied x a w | inr (lo, hi, e) ↦ e ];
    kept = λ x. elim (near x) [
      | inl e ↦ elim (p.kept x) [ inl f ↦ inl (e ∙ f) | inr (a, w, f) ↦ inr (a, w, e ∙ f) ]
      | inr (lo, hi, e) ↦
          inr
            (below x hi, ap (is_wanted mode area) (in_grain (grain_bytes gs) bit x lo hi) ∙ set, e)
    ];
  }
    where
      below : (x : ℕ) → x < suc bit * grain_bytes gs → x < len * grain_bytes gs
      below x h = let up : suc bit * gs ≤ len * gs = mul-le-mul_right gs lt in omega (arith, up)

  -- A grain is finished: it is not wanted, or all its bytes are those of the source.
  Partial-next :
      (bit : ℕ) (t : Bytes)
      → (is_wanted mode area bit ≡ true
          → (x : ℕ) → bit * grain_bytes gs ≤ x
          → x < suc bit * grain_bytes gs
          → t x ≡ source x)
      → Partial source old gs mode area len bit t
      → Partial source old gs mode area len (suc bit) t
  Partial-next bit t whole p = record {
    copied = λ x hi set. elim (dec_lt x (bit * grain_bytes gs)) [
      | yes lt ↦ p.copied x lt set
      | no ge ↦
          let lo : bit * grain_bytes gs ≤ x = omega arith in
          whole (ap (is_wanted mode area) (sym (in_grain (grain_bytes gs) bit x lo hi)) ∙ set) x lo
            hi
    ];
    kept = p.kept;
  }

module _ {W : Type 0} (ops : Posix W) (pid sock disk : ℕ) (source : Bytes) (gs capacity : ℕ)
    (target : W → Bytes) (net : Flaky ops sock disk source gs 8 capacity target)
    (small : capacity < 2 ^ 63) (old : Bytes) (mode : RepMode) (area : Memory) (len : ℕ)
    (whole : gs % 8 ≡ 0) (int : gs < 2 ^ 31) (fits : len * grain_bytes gs ≤ capacity) where
  abbrev Has : ℕ → Bytes → Type 0
  Has done t = Partial source old gs mode area len done t

  abbrev Open : Client → Type 0
  Open c = Ready ops pid sock disk source gs capacity target net small area c

  -- What one grain leaves.
  abbrev pub Grained : ℕ → Option Ending × Client × Bytes × W → Type 0
  Grained bit r =
      (r.0 ≡ none
        → (is_paused ops pid r.1 ≡ false → Has (suc bit) (target r.3) × net.Up r.3)
          × Open r.1
          × (r.1.last_resynced_bit ≡ bit))
      × Has bit (target r.3)
      × (r.1.last_resynced_bit ≤ bit)

  total_iterations-whole :
      (c : Client)
      → c.hdr.grain_size ≡ gs
      → c.hdr.chunk_size ≡ 8
      → total_iterations ops pid c.hdr ≡ gs / 8
  total_iterations-whole c g z =
      ap₂ (λ g z. let y = g / z % 2 ^ 32 in if ltb y (2 ^ 31) then y else y + (2 ^ 64 - 2 ^ 32)) g z
      ∙ small_enough (gs / 8) (omega (arith, int))
    where
      small_enough :
          (x : ℕ)
          → x < 2 ^ 31
          → (let y = x % 2 ^ 32 in if ltb y (2 ^ 31) then y else y + (2 ^ 64 - 2 ^ 32)) ≡ x
      small_enough x lt = ground arith

  marked-Open :
      (c : Client) (u : List Update) (bit : ℕ)
      → Open c
      → Open (record c { db = u; last_resynced_bit = bit })
  marked-Open c u bit s = record {
    socket = s.socket;
    disk_open = s.disk_open;
    grain = s.grain;
    chunk = s.chunk;
    bits = s.bits;
  }

  pub copy_grain-Grained :
      (bit : ℕ) (c : Client) (buff : Bytes) (w : W)
      → bit < len
      → Open c
      → net.Up w
      → c.last_resynced_bit ≤ bit
      → Has bit (target w)
      → Grained bit (copy_grain ops pid mode bit area c buff w)
  unfolding copy_grain
  copy_grain-Grained bit c buff w lt s up last has =
      let grain_end : offset gs 8 bit (0 + gs / 8) ≡ suc bit * grain_bytes gs =
        omega (arith, whole) in
      let fit : suc bit * grain_bytes gs ≤ capacity =
        let up : suc bit * gs ≤ len * gs = mul-le-mul_right gs lt in omega (arith, up, fits) in
      let r = copy_chunks ops pid (total_iterations ops pid c.hdr) 0 bit c buff w in
      let lo = offset gs 8 bit 0 in
      let hi = offset gs 8 bit (0 + gs / 8) in
      let (full, ready, near, same) : Copied ops pid sock disk source gs capacity target net small
          area lo hi c w r =
        subst
          (λ n.
            Copied ops pid sock disk source gs capacity target net small area lo hi c w
              (copy_chunks ops pid n 0 bit c buff w))
          (sym (total_iterations-whole c s.grain s.chunk))
          (copy_chunks-Copied ops pid sock disk source gs capacity target net small area (gs / 8) 0
            bit c buff w s up (omega (arith, grain_end, fit))) in
      if_holds (Grained bit) (is_wanted mode area bit) _
        (none, record c { last_resynced_bit = bit }, buff, w)
        (λ set.
          let now : Has bit (target r.3) =
            Partial-Near source old gs mode area len bit (target w) (target r.3) lt set has (λ x.
              elim (near x) [
                | inl e ↦ inl e
                | inr (a, b, e) ↦ inr (omega arith, omega (arith, grain_end, b), e)
              ]) in
          option_holds (Grained bit) r.0 _ (λ e. (some e, r.1, r.2, r.3))
            (λ done. (
              λ _. (
                λ p.
                    let (bytes, up2) = full done p in
                    (
                      Partial-next source old gs mode area len bit (target r.3)
                          (λ _ x a b. bytes x (omega (arith, a)) (omega (arith, grain_end, b))) now,
                      up2,
                    ),
                marked-Open r.1 _ bit (ready done),
                refl,
              ),
              now,
              omega arith,
            ))
            (λ e failed. (λ never. absurd (cc never), now, omega (arith, same, last))))
        (λ clear. (
          λ _. (
            λ p. (
              Partial-next source old gs mode area len bit (target w)
                  (λ set. absurd (cc (set, clear))) has,
              up,
            ),
            marked-Open c c.db bit s,
            refl,
          ),
          has,
          omega arith,
        ))

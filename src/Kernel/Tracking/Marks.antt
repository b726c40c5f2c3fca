-- ===== src/Kernel/Tracking/Marks.antt =====
-- The bitmap after the request path of kernel/atdr_linux/atdr_req.c.
use Prim.Native.Nat.{min}
use greko.Base.{
  ℕ, zero, suc, ◌+◌, ◌-◌, ◌*◌, ◌/◌, ◌^◌, ◌≤◌, ◌<◌, ◌≡◌, refl, Bool, true, false, some, List, [],
  ◌∷◌, ltb, leb, if◌then◌else◌, arith, ap, ap₂, ◌∙◌, sym, ◌&&◌, ◌||◌, fun_ext, Bool-cases, inl, inr,
  ◌++◌,
}
use native.Mathlib.Nat.{le_trans, div-mul-le_self, le-div_iff_mul-le}
use mathlib.Core.List.{reverse, reverse-cons, append_assoc}
use greko.Base.Int.{pos, to_int, to_int-pos}
use greko.Base.Loops.{for_range}
use greko.Memory.{Memory, mark}
use greko.Memory.Laws.{mark_empty, mark_join_at, mark_at}
use greko.Kernel.Bitmap.{Bitmap}
use greko.Kernel.Tracking.{
  BitOps, Bio, bio_sectors, bio_end_sector, set_bits, set_bitmap, update_bmap_and_sync,
  make_request, make_requests,
}
use greko.Kernel.Tracking.Search.{grain_sectors, IsSized, find_pos-div}

-- The bits of the grains from that of `bi_sector` to that of the end sector, both clipped to the
-- last bit.
abbrev pub first_grain : Bitmap → Bio → ℕ
first_grain b bio = min (bio.bi_sector / grain_sectors b) (b.bitmap_size - 1)

abbrev pub last_grain : Bitmap → Bio → ℕ
last_grain b bio = min (bio_end_sector bio / grain_sectors b) (b.bitmap_size - 1)

-- The end of a request does not wrap around.
abbrev pub Fits : Bio → Type 0
Fits bio = bio.bi_sector + bio_sectors bio < 2 ^ 64

div_mono : (x y k : ℕ) → 0 < k → x ≤ y → x / k ≤ y / k
div_mono x y k z h = (le-div_iff_mul-le z).1 (le_trans (div-mul-le_self x k) h)

first-le-last :
    (b : Bitmap) (bio : Bio) → IsSized b → Fits bio → first_grain b bio ≤ last_grain b bio
first-le-last b bio v h =
    let plain : bio_end_sector bio ≡ bio.bi_sector + bio_sectors bio = omega arith in
    let grows =
      div_mono bio.bi_sector (bio_end_sector bio) (grain_sectors b) v.has_grain (omega arith) in
    omega arith

module _ (ops : BitOps) where
  set_loop :
      (area n i : ℕ) (m : Memory)
      → for_range n i (λ i. ops.set_bit i area) m ≡ mark (8 * area + i) (8 * area + i + n) m
  unfolding for_range
  set_loop area zero i m = sym (mark_empty _ _ m (omega arith))
  set_loop area (suc n) i m =
      set_loop area n (suc i) (ops.set_bit i area m)
      ∙ ap (mark (8 * area + suc i) (8 * area + suc i + n)) (ops.set_bit-mark i area m)
      ∙ mark_join_at m refl (omega arith) (omega arith) (omega arith) (omega arith)

  set_bits-mark :
      (b : Bitmap) (first last : ℕ) (m : Memory)
      → first ≤ suc last
      → set_bits ops b (pos first) (pos last) m
        ≡ some (mark (8 * b.bitmap_area + first) (8 * b.bitmap_area + suc last) m)
  unfolding set_bits
  set_bits-mark b first last m h =
      ap some (set_loop b.bitmap_area (suc last - first) first m ∙ mark_at m refl (omega arith))

  -- On a sized bitmap, for a request whose end does not wrap around, `ebdr_set_bitmap` sets exactly
  -- the bits of the grains from the one of the first sector to the one of the sector behind the
  -- request, a grain behind the last being the last.
  pub set_bitmap-mark :
      (b : Bitmap) (bio : Bio) (m : Memory)
      → IsSized b
      → Fits bio
      → set_bitmap ops b bio m
        ≡ some (
            mark
              (8 * b.bitmap_area + first_grain b bio)
              (8 * b.bitmap_area + suc (last_grain b bio))
              m)
  unfolding set_bitmap
  set_bitmap-mark b bio m v h =
      ap₂ (λ f l. set_bits ops b (to_int f) (to_int l) m) (find_pos-div b bio.bi_sector v)
        (find_pos-div b (bio_end_sector bio) v)
      ∙ ap₂ (λ f l. set_bits ops b f l m) (to_int-pos (first_grain b bio) (omega (arith, v.is_int)))
          (to_int-pos (last_grain b bio) (omega (arith, v.is_int)))
      ∙ set_bits-mark b (first_grain b bio) (last_grain b bio) m
          (omega (arith, first-le-last b bio v h))

-- Whether a write of the list covers bit `n` of the memory.
abbrev pub touched : Bitmap → List Bio → ℕ → Bool
touched b [] n = false
touched b (bio ∷ bios) n =
    (bio.is_write
      && (leb (8 * b.bitmap_area + first_grain b bio) n
          && ltb n (8 * b.bitmap_area + suc (last_grain b bio))))
    || touched b bios n

abbrev pub marked : Bitmap → List Bio → Memory → Memory
marked b bios m n = m n || touched b bios n

abbrev pub All {ℓ κ} : {A : Type ℓ} → (A → Type κ) → List A → Type κ
All P [] = Unit
All P (x ∷ xs) = P x × All P xs

mark-marked :
    (b : Bitmap) (bio : Bio) (m : Memory)
    → bio.is_write ≡ true
    → mark (8 * b.bitmap_area + first_grain b bio) (8 * b.bitmap_area + suc (last_grain b bio)) m
      ≡ marked b (bio ∷ []) m
unfolding mark
mark-marked b bio m w = fun_ext λ n. ground arith

module _ (ops : BitOps) where
  update-marked :
      (b : Bitmap) (bio : Bio) (m : Memory)
      → IsSized b
      → Fits bio
      → update_bmap_and_sync ops b bio m ≡ some (marked b (bio ∷ []) m)
  unfolding update_bmap_and_sync
  update-marked b bio m v h = elim (Bool-cases bio.is_write) [
    | inl w ↦
        ap (λ t. if t then set_bitmap ops b bio m else some m) w
        ∙ set_bitmap-mark ops b bio m v h
        ∙ ap some (mark-marked b bio m w)
    | inr r ↦
        ap (λ t. if t then set_bitmap ops b bio m else some m) r
        ∙ ap some (fun_ext λ n. ground arith)
  ]

  -- A run of requests whose ends do not wrap around, on a sized bitmap, never fails; it leaves set the
  -- bits that were set and those that a write of the run covers, and no other; and it hands every
  -- request on, in order.
  pub make_requests-marked :
      (b : Bitmap) (bios : List Bio) (m : Memory) (submitted : List Bio)
      → IsSized b
      → All Fits bios
      → make_requests ops b bios (m, submitted) ≡ some (marked b bios m, reverse bios ++ submitted)
  unfolding make_requests make_request
  make_requests-marked b [] m submitted v h =
      ap (λ m'. some (m', submitted)) (fun_ext λ n. ground arith)
  make_requests-marked b (bio ∷ bios) m submitted v h =
      rw (update-marked b bio m v h.0, make_requests)
        (make_requests-marked b bios (marked b (bio ∷ []) m) (bio ∷ submitted) v h.1
          ∙ ap₂ (λ m' l. some (m', l)) (fun_ext λ n. ground arith)
              (sym (
                ap (λ l. l ++ submitted) (reverse-cons bio bios)
                ∙ append_assoc (reverse bios) (bio ∷ []) submitted)))

touched-append :
    (b : Bitmap) (xs ys : List Bio) (n : ℕ)
    → touched b (xs ++ ys) n ≡ (touched b xs n || touched b ys n)
touched-append b [] ys n = refl
touched-append b (x ∷ xs) ys n = ground (arith, touched-append b xs ys n)

All-middle :
    (before : List Bio) (bio : Bio) (after : List Bio) → All Fits (before ++ bio ∷ after) → Fits bio
All-middle [] bio after h = h.0
All-middle (x ∷ before) bio after h = All-middle before bio after h.1

-- The grain of a covered sector lies between the two grains of the request.
covers :
    (b : Bitmap) (bio : Bio) (s : ℕ)
    → IsSized b
    → Fits bio
    → bio.bi_sector ≤ s
    → s ≤ bio.bi_sector + bio_sectors bio
    → s / grain_sectors b < b.bitmap_size
    → (first_grain b bio ≤ s / grain_sectors b) × (s / grain_sectors b ≤ last_grain b bio)
covers b bio s v fit lo hi tracked =
    let plain : bio_end_sector bio ≡ bio.bi_sector + bio_sectors bio = omega arith in
    let below = div_mono bio.bi_sector s (grain_sectors b) v.has_grain lo in
    let above = div_mono s (bio_end_sector bio) (grain_sectors b) v.has_grain (omega arith) in
    omega arith

module _ (ops : BitOps) where
  -- After a run of requests whose ends do not wrap around, on a sized bitmap, every sector that a
  -- write of the run covers, and the sector behind the write, has its grain's bit set, if the bitmap
  -- has a bit for that grain.
  pub make_requests-tracks :
      (b : Bitmap) (before : List Bio) (bio : Bio) (after : List Bio) (m : Memory)
      (submitted : List Bio) (s : ℕ)
      → IsSized b
      → All Fits (before ++ bio ∷ after)
      → bio.is_write ≡ true
      → bio.bi_sector ≤ s
      → s ≤ bio.bi_sector + bio_sectors bio
      → s / grain_sectors b < b.bitmap_size
      → (m' : Memory) × (submitted' : List Bio) × (make_requests ops b
            (before ++ bio ∷ after)
            (m, submitted)
          ≡ some (m', submitted'))
        × (m' (8 * b.bitmap_area + s / grain_sectors b) ≡ true)
  make_requests-tracks b before bio after m submitted s v fits w lo hi tracked =
      let bit = 8 * b.bitmap_area + s / grain_sectors b in
      let inside = covers b bio s v (All-middle before bio after fits) lo hi tracked in
      (
        marked b (before ++ bio ∷ after) m,
        reverse (before ++ bio ∷ after) ++ submitted,
        make_requests-marked ops b (before ++ bio ∷ after) m submitted v fits,
        ground (arith, touched-append b before (bio ∷ after) bit),
      )

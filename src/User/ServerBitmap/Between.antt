-- ===== src/User/ServerBitmap/Between.antt =====
-- Requests that the kernel takes between the daemon's copy of a half and its flip, as
-- `server_bitmap_load_from_memory` of user/atdr_linux/atdr_bitmap_server.c lets them.
use greko.Base.{
  ℕ, Bool, suc, ◌+◌, ◌*◌, ◌≤◌, ◌<◌, ◌≡◌, refl, ap, ◌∙◌, true, false, ◌||◌, ◌&&◌, ◌-◌, ◌%◌, leb, ltb,
  if◌then◌else◌, sym, none, some, List, [], ◌∷◌, arith, ◌⊎◌,
}
use greko.Memory.{Memory, unmark}
use greko.Kernel.Bitmap.{Bitmap}
use greko.Kernel.Device.{Answers}
use greko.Kernel.Device.Control.Areas.{Placed}
use greko.User.Types.{ObjectState}
use greko.Kernel.Tracking.{BitOps, Bio, make_requests}
use greko.Kernel.Tracking.Search.{IsSized}
use greko.Kernel.Tracking.Marks.{Fits, All, touched, marked, last_grain, make_requests-marked}
use greko.User.ServerBitmap.{
  Loading, Mapping, load_from_memory_with, bitmap_server_destroy, copy_mmaped_bitmap,
}
use greko.User.ServerBitmap.Copies.{copy_mmaped_bitmap-bits}
use greko.User.ServerBitmap.Requests.{
  half_of, other_user, copied_and_flipped, asked, load_from_memory-flips,
}
use greko.User.ServerBitmap.Flip.{
  IsMapped, Placed-half, bitmap_server_destroy-unmark, other_twice, half_apart, copied_bit,
}

-- The requests touch no bit outside the bitmap.
touched-outside :
    (b : Bitmap) (bios : List Bio) (n : ℕ)
    → IsSized b
    → (n < 8 * b.bitmap_area) ⊎ (8 * b.bitmap_area + b.bitmap_size ≤ n)
    → touched b bios n ≡ false
touched-outside b [] n v out = refl
touched-outside b (bio ∷ bios) n v out =
    let bits = v.has_bits in
    let inside : suc (last_grain b bio) ≤ b.bitmap_size = omega arith in
    ground (arith, touched-outside b bios n v out)

or_false : (t : Bool) → (t || false) ≡ t
or_false t = ground arith

-- The bits of the half itself stay as they are.
not_copied :
    (src dest size : ℕ) (m : Memory) (x : ℕ)
    → x < 8 * size
    → size % 8 ≡ 0
    → (src + size ≤ dest) ⊎ (dest + size ≤ src)
    → copy_mmaped_bitmap dest src size m (8 * src + x) ≡ m (8 * src + x)
not_copied src dest size m x hi words apart =
    copy_mmaped_bitmap-bits dest src size m (8 * src + x) words apart
    ∙ ap (λ b. if b then m (8 * src + (8 * src + x - 8 * dest)) else m (8 * src + x))
        (outside src dest size x hi apart)
  where
    outside :
        (src dest size x : ℕ)
        → x < 8 * size
        → (src + size ≤ dest) ⊎ (dest + size ≤ src)
        → (leb (8 * dest) (8 * src + x) && ltb (8 * src + x) (8 * (dest + size))) ≡ false
    outside src dest size x hi apart = ground arith

unmark-inside : (lo hi : ℕ) (m : Memory) (n : ℕ) → lo ≤ n → n < hi → unmark lo hi m n ≡ false
unfolding unmark
unmark-inside lo hi m n ge lt = ground arith

-- What requests make of the memory.
abbrev pub taken : BitOps → Bitmap → List Bio → Memory → Memory
taken ops b bios m = elim (make_requests ops b bios (m, [])) [ none ↦ m | some (m1, done) ↦ m1 ]

module _ (ops : BitOps) where
  taken-marked :
      (b : Bitmap) (bios : List Bio) (m : Memory)
      → IsSized b
      → All Fits bios
      → taken ops b bios m ≡ marked b bios m
  taken-marked b bios m v fits =
      ap (λ o. elim o [ none ↦ m | some (m1, done) ↦ m1 ])
        (make_requests-marked ops b bios m [] v fits)

  -- What the code does when the kernel takes requests between the daemon's copy of a half and the
  -- flip, for a device that has a bitmap in its mapped area of whole words, apart from the daemon's
  -- own copy, outside recovery and reconnection, with control blocks that the kernel can read, a
  -- bitmap of at most the bits of the half, and sizes and requests that do not wrap around. The
  -- loading succeeds; the half that was copied has its bits from before and those that the requests
  -- set, but the copy has the bits from before the requests, and the end of the replication clears
  -- the half.
  pub make_requests-lost :
      (d : Mapping) (server_pid p : ℕ) (a a' : Answers) (l0 : Loading) (bios : List Bio) (x : ℕ)
      → a.copied ≡ true
      → a'.copied ≡ true
      → l0.conn ≡ ObjectState.in_use
      → (l0.kernel.device (server_pid + 1)).bitmap ≡ some p
      → IsMapped l0.kernel (server_pid + 1) d
      → Placed (some d.active_bitmap) d.bitmap_size (l0.kernel.bitmaps p)
      → (d.active_bitmap + 2 * d.bitmap_size ≤ l0.ubitmap.bitmap_area)
        ⊎ (l0.ubitmap.bitmap_area + d.bitmap_size ≤ d.active_bitmap)
      → IsSized (l0.kernel.bitmaps p)
      → (l0.kernel.bitmaps p).bitmap_size ≤ 8 * d.bitmap_size
      → All Fits bios
      → x < 8 * d.bitmap_size
      → let b = l0.kernel.bitmaps p in
        (l : Loading) × (load_from_memory_with (taken ops b bios) false d server_pid a a' l0
          ≡ some l)
        × (l.kernel.memory (8 * b.bitmap_area + x)
            ≡ (l0.kernel.memory (8 * b.bitmap_area + x) || touched b bios (8 * b.bitmap_area + x)))
        × (l.kernel.memory (8 * l.ubitmap.bitmap_area + x)
            ≡ l0.kernel.memory (8 * b.bitmap_area + x))
        × (bitmap_server_destroy l.ubitmap d l.kernel.memory (8 * b.bitmap_area + x) ≡ false)
  make_requests-lost d server_pid p a a' l0 bios x c c' free dev mapped placed apart v small fits
        hi =
      let b = l0.kernel.bitmaps p in
      let who = b.bmap_user in
      let l = copied_and_flipped (taken ops b bios) d p who (asked d server_pid l0) in
      let dest = l0.ubitmap.bitmap_area in
      let copied = copy_mmaped_bitmap dest (half_of who d) d.bitmap_size l0.kernel.memory in
      let set = taken-marked b bios copied v fits in
      let (here, there) = Placed-half d b mapped.backup placed in
      let away = half_apart d who dest mapped.backup apart in
      let untouched : touched b bios (8 * dest + x) ≡ false =
        touched-outside b bios (8 * dest + x) v (ground (arith, here, away)) in
      let same : half_of (other_user (other_user who)) d ≡ b.bitmap_area =
        ap (λ u. half_of u d) (other_twice who) ∙ here in
      (
        l,
        load_from_memory-flips (taken ops b bios) d server_pid p a a' l0 c c' free dev,
        ap (λ m. m (8 * b.bitmap_area + x)) set
            ∙ ap (λ t. t || touched b bios (8 * b.bitmap_area + x))
                (ap (λ o. copied (8 * o + x)) (sym here)
                  ∙ not_copied (half_of who d) dest d.bitmap_size l0.kernel.memory x hi mapped.words
                      away
                  ∙ ap (λ o. l0.kernel.memory (8 * o + x)) here),
        ap (λ m. m (8 * dest + x)) set
            ∙ ap (λ t. copied (8 * dest + x) || t) untouched
            ∙ or_false (copied (8 * dest + x))
            ∙ copied_bit (half_of who d) dest d.bitmap_size l0.kernel.memory x hi mapped.words away
            ∙ ap (λ o. l0.kernel.memory (8 * o + x)) here,
        ap (λ f. f (8 * b.bitmap_area + x))
              (bitmap_server_destroy-unmark d l.ubitmap l.kernel.memory mapped.words)
            ∙ unmark-inside _ _ l.kernel.memory (8 * b.bitmap_area + x) (omega (arith, same))
                (omega (arith, same)),
      )

-- ===== src/Kernel/Tracking.antt =====
-- Write tracking: the second half of kernel/atdr_linux/atdr_bitmap.c and the request path of
-- kernel/atdr_linux/atdr_req.c. Linux's `__set_bit` and `generic_make_request` are parameters.
pub mod Search
pub mod Marks
use greko.Base.{
  ℕ, zero, suc, ◌+◌, ◌-◌, ◌*◌, ◌/◌, ◌%◌, ◌^◌, ◌≡◌, Bool, true, false, Option, none, some, List, [],
  ◌∷◌, ltb, leb, if◌then◌else◌, bit_or,
}
use greko.Base.Int.{ℤ, pos, negsuc, to_int}
use greko.Base.Loops.{for_range}
use greko.Memory.{Memory, load, store, mark}
use greko.Kernel.Bitmap.{Bitmap}

-- Linux's `__set_bit(nr, addr)`: it sets bit `nr` counted from the address `addr`.
pub record BitOps : Type 0 where
  pub set_bit : ℕ → ℕ → Memory → Memory
  pub set_bit-mark :
      (nr addr : ℕ) (m : Memory) → set_bit nr addr m ≡ mark (8 * addr + nr) (8 * addr + nr + 1) m

-- The fields of `struct bio` that the driver reads: `bio_data_dir`, `bi_sector` and `bi_size`.
pub record Bio : Type 0 where
  pub is_write : Bool
  pub bi_sector : ℕ
  pub bi_size : ℕ

-- bi_size >> 9
abbrev pub bio_sectors : Bio → ℕ
bio_sectors bio = bio.bi_size / 2 ^ 9

abbrev pub bio_end_sector : Bio → ℕ
bio_end_sector bio = (bio.bi_sector + bio_sectors bio) % 2 ^ 64

-- `*bmap |= (1 << first)` for a bit of the first `int`: `1 << 31` is negative there and its sign
-- fills the upper half of the long.
abbrev pub set_first_bit : Bitmap → ℕ → Memory → Memory
set_first_bit b first m =
    store 64 m b.bitmap_area
      (bit_or (load 64 m b.bitmap_area) (if ltb first 31 then 2 ^ first else 2 ^ 64 - 2 ^ 31))

-- The loop of `ebdr_find_pos` with `rounds` left, `size` the grain in sectors.
find_from : ℕ → ℕ → ℕ → ℕ → ℕ → ℕ
find_from size addr over zero cur = over
find_from size addr over (suc rounds) cur =
    if ltb addr ((cur + 1) * size % 2 ^ 64) then cur else find_from size addr over rounds (suc cur)

pub find_pos : Bitmap → ℕ → ℕ
unfolding find_from
find_pos b addr =
    find_from (b.grain_size / 2 ^ 9) addr ((b.bitmap_size + 2 ^ 64 - 1) % 2 ^ 64) b.bitmap_size 0

module _ (ops : BitOps) where
  open ops use {set_bit}

  -- `for (i = first; i <= last; i++) __set_bit(i, bmap)`, on `int`s. `none` is a write through a
  -- negative bit number, before the area.
  pub set_bits : Bitmap → ℤ → ℤ → Memory → Option Memory
  unfolding for_range
  set_bits b (pos first) (pos last) m =
      some (for_range (suc last - first) first (λ i. set_bit i b.bitmap_area) m)
  set_bits b (pos first) (negsuc last) m = some m
  set_bits b (negsuc first) (pos last) m = none
  set_bits b (negsuc first) (negsuc last) m = if leb last first then none else some m

  pub set_bitmap : Bitmap → Bio → Memory → Option Memory
  unfolding set_bits find_pos to_int
  set_bitmap b bio m =
      set_bits b (to_int (find_pos b bio.bi_sector)) (to_int (find_pos b (bio_end_sector bio))) m

  -- `ebdr_write_bitmap_and_sync_disk` returns 0 and does nothing.
  pub update_bmap_and_sync : Bitmap → Bio → Memory → Option Memory
  unfolding set_bitmap
  update_bmap_and_sync b bio m = if bio.is_write then set_bitmap b bio m else some m

  -- The memory after the bitmap is updated, and the requests handed to the backing device, oldest
  -- last. The bio goes to `generic_make_request` only once its bits are set.
  pub make_request : Bitmap → Bio → Memory × List Bio → Option (Memory × List Bio)
  unfolding update_bmap_and_sync
  make_request b bio (m, submitted) = elim (update_bmap_and_sync b bio m) [
    | none ↦ none
    | some m' ↦ some (m', bio ∷ submitted)
  ]

  pub make_requests : Bitmap → List Bio → Memory × List Bio → Option (Memory × List Bio)
  unfolding make_request
  make_requests b [] s = some s
  make_requests b (bio ∷ bios) s = elim (make_request b bio s) [
    | none ↦ none
    | some s' ↦ make_requests b bios s'
  ]

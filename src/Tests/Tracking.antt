-- ===== src/Tests/Tracking.antt =====
-- The bitmap of one device, and requests that pass through it.
use Prim.Native.Nat.{min}
use Prim.{tt}
use mathlib.Core.List.{reverse}
use greko.Base.{
  suc, ◌+◌, ◌-◌, ◌*◌, ◌/◌, ◌≡◌, refl, true, false, some, List, [], ◌∷◌, ◌++◌, leb, if◌then◌else◌,
  arith,
}
use greko.Memory.{Memory, mark, unmark}
use greko.Kernel.Bitmap.{Bitmap, BitmapUser, bm_set_bits, clear_bmap, clear_bmap_range}
use greko.Kernel.Bitmap.Words.{bm_set_bits-mark}
use greko.Kernel.Bitmap.Clear.{clear_bmap-unmark, clear_bmap_range-unmark}
use greko.Kernel.Tracking.{BitOps, Bio, find_pos, set_bitmap, make_requests}
use greko.Kernel.Tracking.Search.{IsSized, grain_sectors, find_pos-div}
use greko.Kernel.Tracking.Marks.{
  first_grain, last_grain, marked, set_bitmap-mark, make_requests-marked, make_requests-tracks,
}

-- 1024 grains of 8 sectors, at the address 4096.
abbrev pub small_bitmap : Bitmap
small_bitmap = record {
  bitmap_area = 4096;
  bitmap_size = 1024;
  grain_size = 4096;
  bitmap_version = 0;
  bitmap_state = 0;
  bmap_user = BitmapUser.kernel;
}

abbrev pub clean : Memory
clean n = false

-- `__set_bit` as a change of the memory's bits.
abbrev pub bit_ops : BitOps
bit_ops = record {
  set_bit = λ nr addr m. mark (8 * addr + nr) (8 * addr + nr + 1) m;
  set_bit-mark = λ nr addr m. refl;
}

abbrev small_bitmap-IsSized : IsSized small_bitmap
small_bitmap-IsSized = record {
  has_grain = omega arith;
  has_bits = omega arith;
  fits = omega arith;
  is_int = omega arith;
}

-- A write of 16 sectors from sector 20 on, and a read.
abbrev pub a_write : Bio
a_write = record { is_write = true; bi_sector = 20; bi_size = 8192 }

abbrev a_read : Bio
a_read = record { is_write = false; bi_sector = 100; bi_size = 4096 }

bm_set_bits-mark_example :
    bm_set_bits small_bitmap 3 500 clean
    ≡ mark (8 * small_bitmap.bitmap_area + 3) (8 * small_bitmap.bitmap_area + suc 500) clean
bm_set_bits-mark_example =
    bm_set_bits-mark small_bitmap 3 500 clean (omega arith) (omega arith) (omega arith)

clear_bmap-unmark_example :
    clear_bmap small_bitmap clean
    ≡ unmark
        (8 * small_bitmap.bitmap_area)
        (8 * small_bitmap.bitmap_area + small_bitmap.bitmap_size)
        clean
clear_bmap-unmark_example = clear_bmap-unmark small_bitmap clean refl (omega arith)

clear_bmap_range-unmark_example : clear_bmap_range small_bitmap 9 20 clean ≡ (
    if leb small_bitmap.bitmap_size 20
    then clean
    else unmark
        (8 * small_bitmap.bitmap_area + 9 / 8 * 8)
        (8 * small_bitmap.bitmap_area + suc (20 / 8) * 8)
        clean)
clear_bmap_range-unmark_example =
    clear_bmap_range-unmark small_bitmap 9 20 clean (omega arith) (omega arith)

find_pos-div_example :
    find_pos small_bitmap 20 ≡ min (20 / grain_sectors small_bitmap) (small_bitmap.bitmap_size - 1)
find_pos-div_example = find_pos-div small_bitmap 20 small_bitmap-IsSized

set_bitmap-mark_example :
    set_bitmap bit_ops small_bitmap a_write clean
    ≡ some (
        mark
          (8 * small_bitmap.bitmap_area + first_grain small_bitmap a_write)
          (8 * small_bitmap.bitmap_area + suc (last_grain small_bitmap a_write))
          clean)
set_bitmap-mark_example =
    set_bitmap-mark bit_ops small_bitmap a_write clean small_bitmap-IsSized (omega arith)

make_requests-marked_example :
    make_requests bit_ops small_bitmap (a_read ∷ a_write ∷ []) (clean, [])
    ≡ some
        (marked small_bitmap (a_read ∷ a_write ∷ []) clean, reverse (a_read ∷ a_write ∷ []) ++ [])
make_requests-marked_example =
    make_requests-marked bit_ops small_bitmap (a_read ∷ a_write ∷ []) clean [] small_bitmap-IsSized
      (omega arith, (omega arith, tt))

make_requests-tracks_example :
    (m' : Memory) × (submitted' : List Bio) × (make_requests bit_ops small_bitmap
        ((a_read ∷ []) ++ a_write ∷ [])
        (clean, [])
      ≡ some (m', submitted'))
    × (m' (8 * small_bitmap.bitmap_area + 30 / grain_sectors small_bitmap) ≡ true)
make_requests-tracks_example =
    make_requests-tracks bit_ops small_bitmap (a_read ∷ []) a_write [] clean [] 30
      small_bitmap-IsSized (omega arith, (omega arith, tt)) refl (omega arith) (omega arith)
      (omega arith)

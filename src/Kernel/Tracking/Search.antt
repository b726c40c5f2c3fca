-- ===== src/Kernel/Tracking/Search.antt =====
-- The search of a sector's grain, `ebdr_find_pos` of kernel/atdr_linux/atdr_bitmap.c.
use greko.Base.{
  ℕ, zero, suc, ◌+◌, ◌-◌, ◌*◌, ◌/◌, ◌%◌, ◌^◌, ◌≤◌, ◌<◌, ◌≡◌, ltb, if◌then◌else◌, arith, ◌∙◌, dec_lt,
}
use Prim.Native.Nat.{min}
use native.Mathlib.Nat.{le-div_iff_mul-le, div-lt_iff_lt-mul}
use greko.Kernel.Bitmap.{Bitmap}
use greko.Kernel.Tracking.{find_from, find_pos}

-- From a position that the sector lies beyond, the search ends at the sector's grain, or at `over`.
find_from-div :
    (size addr over rounds cur : ℕ)
    → 0 < size
    → (cur + rounds) * size < 2 ^ 64
    → cur * size ≤ addr
    → find_from size addr over rounds cur
      ≡ (if ltb (addr / size) (cur + rounds) then addr / size else over)
unfolding find_from
find_from-div size addr over zero cur z fits le =
    let beyond : cur ≤ addr / size = (le-div_iff_mul-le z).1 le in ground arith
find_from-div size addr over (suc rounds) cur z fits le =
    let plain : (cur + 1) * size % 2 ^ 64 ≡ (cur + 1) * size = omega arith in
    let beyond : cur ≤ addr / size = (le-div_iff_mul-le z).1 le in
    elim (dec_lt addr ((cur + 1) * size)) [
      | yes p ↦
          let found : addr / size < cur + 1 = (div-lt_iff_lt-mul z).1 p in rw plain (ground arith)
      | no p ↦ rw plain (
          ground
            (arith, find_from-div size addr over rounds (suc cur) z (omega arith) (omega arith)))
    ]

-- The grain size in sectors.
abbrev pub grain_sectors : Bitmap → ℕ
grain_sectors b = b.grain_size / 2 ^ 9

-- The sizes with which the search does not wrap around: a grain of at least one sector, at least
-- one bit, and a tracked capacity below 2 ^ 64 sectors.
pub record IsSized (b : Bitmap) : Type 0 where
  pub has_grain : 0 < grain_sectors b
  pub has_bits : 0 < b.bitmap_size
  pub fits : b.bitmap_size * grain_sectors b < 2 ^ 64
  pub is_int : b.bitmap_size < 2 ^ 31

-- On a sized bitmap the search gives the grain that holds the sector, and the last one for a sector
-- behind them all.
pub find_pos-div :
    (b : Bitmap) (addr : ℕ)
    → IsSized b
    → find_pos b addr ≡ min (addr / grain_sectors b) (b.bitmap_size - 1)
unfolding find_pos
find_pos-div b addr v =
    find_from-div (grain_sectors b) addr ((b.bitmap_size + 2 ^ 64 - 1) % 2 ^ 64) b.bitmap_size 0
      v.has_grain (omega (arith, v.fits)) (omega arith)
    ∙ ground (arith, v.is_int, v.has_bits)

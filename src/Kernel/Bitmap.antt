-- ===== src/Kernel/Bitmap.antt =====
-- The dirty-grain bitmap of a device: kernel/atdr_linux/atdr_bitmap.c and atdr_bitmap.h.
-- `unsigned long` has 64 bits. A call on `device` takes the bitmap `device->bitmap` and the memory
-- that its `bitmap_area` points into, and returns the new memory.
pub mod Single
pub mod Ranges
pub mod Words
pub mod Clear
use greko.Base.{
  ℕ, zero, suc, ◌+◌, ◌-◌, ◌*◌, ◌/◌, ◌%◌, ◌^◌, ◌≤◌, ◌≡◌, Bool, true, false, ◌&&◌, Option, none, some,
  ltb, leb, ◌==◌, if◌then◌else◌, bit_or, bit_and,
}
use greko.Base.Bits.{bit_not}
use greko.Base.Loops.{for_range}
use greko.Memory.{Memory, load, store}

pub data BitmapUser : Type 0 where
  kernel user : BitmapUser

-- struct ebdr_bitmap, without its lock and its pointer back to the device.
pub record Bitmap : Type 0 where
  pub bitmap_area : ℕ
  pub bitmap_size : ℕ
  pub grain_size : ℕ
  pub bitmap_version : ℕ
  pub bitmap_state : ℕ
  pub bmap_user : BitmapUser

abbrev pub bits_per_long : ℕ
bits_per_long = 64

abbrev pub page_size : ℕ
page_size = 4096

-- 1UL << (PAGE_SHIFT + 3)
abbrev pub num_bits_per_page : ℕ
num_bits_per_page = 32768

-- PAGE_SIZE >> (NUM_BPL - 3)
abbrev pub num_words_per_page : ℕ
num_words_per_page = 512

abbrev pub plkt_max_kmalloc_bytes : ℕ
plkt_max_kmalloc_bytes = 16384

-- An `unsigned long` that went through an `int`: the low 32 bits, with their sign extended.
abbrev pub through_int : ℕ → ℕ
through_int x = let y = x % 2 ^ 32 in if ltb y (2 ^ 31) then y else y + (2 ^ 64 - 2 ^ 32)

-- The two return codes of the bit routines, 0 and -EFAULT.
pub data Status : Type 0 where
  done efault : Status

-- `val[i] = 0x0` for each word; `int size = b->bitmap_size/8`.
pub clear_bmap : Bitmap → Memory → Memory
unfolding for_range
clear_bmap b m =
    for_range (through_int (b.bitmap_size / 8) / 8) 0 (λ i m. store 64 m (b.bitmap_area + 8 * i) 0)
      m

-- `val` is a `char *` here. Both tests of the guard are on `unsigned long`, so `begin < 0` is false.
pub clear_bmap_range : Bitmap → ℕ → ℕ → Memory → Memory
unfolding for_range
clear_bmap_range b begin end m =
    if leb (through_int b.bitmap_size) end
    then m
    else for_range (suc (end / 8) - begin / 8) (begin / 8) (λ i m. store 8 m (b.bitmap_area + i) 0)
        m

-- `bitmap + pnum * NUM_BITS_PER_PAGE/8`, or NULL.
pub get_page_ptr : ℕ → ℕ → Option ℕ
get_page_ptr bitmap pnum =
    if ltb plkt_max_kmalloc_bytes (pnum * num_bits_per_page % 2 ^ 64 / 8)
    then none
    else some (bitmap + pnum * num_bits_per_page % 2 ^ 64 / 8)

set_words_at : Option ℕ → ℕ → ℕ → Memory → Status × Memory
unfolding for_range
set_words_at none start end m = (efault, m)
set_words_at (some padd) start end m =
    (done, for_range (end - start) start (λ i m. store 64 m (padd + 8 * i) (bit_not 64 0)) m)

-- The words of page `pno` from `start` up to `end`, `end` excluded.
pub bm_set_words : ℕ → ℕ → ℕ → ℕ → Memory → Status × Memory
unfolding set_words_at get_page_ptr
bm_set_words bmap pno start end = set_words_at (get_page_ptr bmap pno) start end

-- `int` result, which the caller holds in an `int`.
pub bm_bit_to_page : ℕ → ℕ
bm_bit_to_page bnum = through_int (bnum / 2 ^ 15)

pub bm_set_bit2 : ℕ → Option ℕ → Memory → Status × Memory
bm_set_bit2 num none m = (efault, m)
bm_set_bit2 num (some arg) m =
    let var = arg + 8 * (num / bits_per_long) in
    (done, store 64 m var (bit_or (load 64 m var) (2 ^ (num % bits_per_long))))

pub bm_clear_bit2 : ℕ → Option ℕ → Memory → Status × Memory
bm_clear_bit2 num none m = (efault, m)
bm_clear_bit2 num (some arg) m =
    let var = arg + 8 * (num / bits_per_long) in
    (done, store 64 m var (bit_and (load 64 m var) (bit_not 64 (2 ^ (num % bits_per_long)))))

-- The loop variables of `ebdr_bm_change_bits`: `lpage`, -1 at first, and the page's address.
pub record Cursor : Type 0 where
  pub lpage : Option ℕ
  pub paddr : Option ℕ
  pub memory : Memory

abbrev same_page : Option ℕ → ℕ → Bool
same_page none pnum = false
same_page (some lpage) pnum = lpage == pnum

-- if (lpage != pnum) { paddr = ...; lpage = pnum; }
turn_page : ℕ → ℕ → Cursor → Cursor
unfolding get_page_ptr
turn_page area pnum c =
    if same_page c.lpage pnum
    then c
    else record c { lpage = some pnum; paddr = get_page_ptr area pnum }

change_bit : ℕ → Bool → ℕ → Cursor → Cursor
unfolding turn_page bm_bit_to_page bm_set_bit2 bm_clear_bit2
change_bit area set i c =
    let c' = turn_page area (bm_bit_to_page i) c in
    record c' {
      memory =
          if set
          then (bm_set_bit2 (i % num_bits_per_page) c'.paddr c'.memory).1
          else (bm_clear_bit2 (i % num_bits_per_page) c'.paddr c'.memory).1;
    }

-- `if ((nbits > 0) && (end >= nbits)) end = nbits - 1;`
abbrev clip : ℕ → ℕ → ℕ
clip nbits end = if ltb 0 nbits && leb nbits end then nbits - 1 else end

-- `arg == BM_SET_BITS` sets the bits from `start` to `end`, any other `arg` clears them.
pub bm_change_bits : Bitmap → ℕ → ℕ → ℕ → Memory → Memory
unfolding for_range change_bit
bm_change_bits b start end arg m =
    (for_range (suc (clip b.bitmap_size end) - start) start
      (λ i c. change_bit b.bitmap_area (arg == 1) i c)
      (record { lpage = none; paddr = none; memory = m })).memory

-- Whole pages `fpage` to `lpage - 1`: the first from word `fword`, the others from word 0.
set_pages : ℕ → ℕ → ℕ → ℕ → Memory → Memory
set_pages area zero pnum fword m = m
set_pages area (suc pages) pnum fword m =
    set_pages area pages (suc pnum) 0 (bm_set_words area pnum fword num_words_per_page m).1

-- `& ~(BITS_PER_LONG - 1)`
abbrev pub long_floor : ℕ → ℕ
long_floor x = x / bits_per_long * bits_per_long

pub bm_set_bits : Bitmap → ℕ → ℕ → Memory → Memory
unfolding set_pages
bm_set_bits b begin end m =
    let b1 = long_floor ((begin + (bits_per_long - 1)) % 2 ^ 64) in
    let e1 = long_floor ((end + 1) % 2 ^ 64) in
    if leb ((end + 2 ^ 64 - begin) % 2 ^ 64) (3 * bits_per_long)
    then bm_change_bits b begin end 1 m
    else let fpage = b1 / 2 ^ 15 in
      let lpage = e1 / 2 ^ 15 in
      let fword = b1 / 2 ^ 6 % num_words_per_page in
      let lword = e1 / 2 ^ 6 % num_words_per_page in
      let head = if 0 == b1 then m else bm_change_bits b begin (b1 - 1) 1 m in
      let pages = set_pages b.bitmap_area (lpage - fpage) fpage fword head in
      let fword' = if ltb fpage lpage then 0 else fword in
      let words =
        if 0 == lword then pages else (bm_set_words b.bitmap_area lpage fword' lword pages).1 in
      if leb e1 end then bm_change_bits b e1 end 1 words else words

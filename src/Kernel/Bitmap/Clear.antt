-- ===== src/Kernel/Bitmap/Clear.antt =====
-- The clearing routines of kernel/atdr_linux/atdr_bitmap.c.
use greko.Base.{
  ℕ, zero, suc, ◌+◌, ◌-◌, ◌*◌, ◌/◌, ◌%◌, ◌^◌, ◌≤◌, ◌<◌, ◌≡◌, leb, if◌then◌else◌, arith, ap, ap₂,
  ◌∙◌, sym, fun_ext,
}
use greko.Base.Loops.{for_range}
use greko.Memory.{Memory, unmark, store}
use greko.Memory.Laws.{unmark_empty, unmark_join, store-zero}
use greko.Kernel.Bitmap.{Bitmap, clear_bmap, clear_bmap_range, through_int}
use greko.Kernel.Bitmap.Single.{through_int-lt}

-- `val[i] = 0` for `n` cells of `width` bytes each, from cell `i` of the object at `area`.
clear_loop :
    (bytes area n i : ℕ) (m : Memory)
    → for_range n i (λ i m. store (8 * bytes) m (area + bytes * i) 0) m
      ≡ unmark (8 * (area + bytes * i)) (8 * (area + bytes * (i + n))) m
unfolding for_range
clear_loop bytes area zero i m = sym (unmark_empty _ _ m (omega arith))
clear_loop bytes area (suc n) i m =
    clear_loop bytes area n (suc i) (store (8 * bytes) m (area + bytes * i) 0)
    ∙ ap (unmark (8 * (area + bytes * suc i)) (8 * (area + bytes * (suc i + n)))) (
        store-zero (8 * bytes) m (area + bytes * i)
        ∙ ap (λ k. unmark (8 * (area + bytes * i)) k m) (omega arith))
    ∙ unmark_join (8 * (area + bytes * i)) (8 * (area + bytes * suc i))
        (8 * (area + bytes * (suc i + n))) m (omega arith) (grind arith)
    ∙ ap (λ k. unmark (8 * (area + bytes * i)) k m) (omega arith)

-- `ebdr_clear_bmap` clears every bit of a bitmap whose size is a whole number of longs, below
-- 2 ^ 34 bits, and no other bit of the memory.
pub clear_bmap-unmark :
    (b : Bitmap) (m : Memory)
    → b.bitmap_size % 64 ≡ 0
    → b.bitmap_size < 2 ^ 34
    → clear_bmap b m ≡ unmark (8 * b.bitmap_area) (8 * b.bitmap_area + b.bitmap_size) m
unfolding clear_bmap
clear_bmap-unmark b m longs small =
    let size = through_int-lt (b.bitmap_size / 8) (omega arith) in
    clear_loop 8 b.bitmap_area (through_int (b.bitmap_size / 8) / 8) 0 m
    ∙ ap₂ (λ k l. unmark k l m) (omega arith) (omega arith)

one_byte : (i : ℕ) → i ≡ 1 * i
one_byte i = omega arith

-- On a bitmap of less than 2 ^ 31 bits, `ebdr_clear_bmap_range` refuses a range that ends outside the
-- bitmap, and otherwise clears the whole bytes that hold the bits from `begin` to `end`, with `begin`
-- not behind `end`, their neighbours in those bytes included.
pub clear_bmap_range-unmark :
    (b : Bitmap) (begin end : ℕ) (m : Memory)
    → begin ≤ end
    → b.bitmap_size < 2 ^ 31
    → clear_bmap_range b begin end m ≡ (
        if leb b.bitmap_size end
        then m
        else unmark (8 * b.bitmap_area + begin / 8 * 8) (8 * b.bitmap_area + suc (end / 8) * 8) m)
unfolding clear_bmap_range
clear_bmap_range-unmark b begin end m le small = rw (through_int-lt b.bitmap_size small) (
    ap (λ t. if leb b.bitmap_size end then m else t)
      (ap
          (λ (at : ℕ → ℕ).
            for_range (suc (end / 8) - begin / 8) (begin / 8)
              (λ i m. store 8 m (b.bitmap_area + at i) 0) m)
          (fun_ext λ i. one_byte i)
        ∙ clear_loop 1 b.bitmap_area (suc (end / 8) - begin / 8) (begin / 8) m
        ∙ ap₂ (λ k l. unmark k l m) (omega arith) (omega arith)))

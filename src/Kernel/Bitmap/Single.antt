-- ===== src/Kernel/Bitmap/Single.antt =====
-- One bit, one page pointer: the primitives of kernel/atdr_linux/atdr_bitmap.c.
use greko.Base.{ℕ, ◌+◌, ◌*◌, ◌/◌, ◌%◌, ◌^◌, ◌≤◌, ◌<◌, ◌≡◌, some, arith, ap, ◌∙◌}
use greko.Memory.{Memory, mark, unmark}
use greko.Memory.Laws.{store-bit_or, store-bit_and}
use greko.Kernel.Bitmap.{
  done, bm_set_bit2, bm_clear_bit2, get_page_ptr, bm_bit_to_page, through_int,
}

pub through_int-lt : (x : ℕ) → x < 2 ^ 31 → through_int x ≡ x
through_int-lt x h = ground arith

pub bm_set_bit2-mark :
    (num arg : ℕ) (m : Memory)
    → bm_set_bit2 num (some arg) m ≡ (done, mark (8 * arg + num) (8 * arg + num + 1) m)
unfolding bm_set_bit2
bm_set_bit2-mark num arg m =
    let at : 8 * (arg + 8 * (num / 64)) + num % 64 ≡ 8 * arg + num = omega arith in
    ap (λ (s : Memory). (done, s))
      (store-bit_or 64 m (arg + 8 * (num / 64)) (num % 64) (omega arith))
    ∙ ap (λ (k : ℕ). (done, mark k (k + 1) m)) at

pub bm_clear_bit2-unmark :
    (num arg : ℕ) (m : Memory)
    → bm_clear_bit2 num (some arg) m ≡ (done, unmark (8 * arg + num) (8 * arg + num + 1) m)
unfolding bm_clear_bit2
bm_clear_bit2-unmark num arg m =
    let at : 8 * (arg + 8 * (num / 64)) + num % 64 ≡ 8 * arg + num = omega arith in
    ap (λ (s : Memory). (done, s))
      (store-bit_and 64 m (arg + 8 * (num / 64)) (num % 64) (omega arith))
    ∙ ap (λ (k : ℕ). (done, unmark k (k + 1) m)) at

-- Pages 0 to 4 have a pointer: one more than the 16384 bytes hold.
pub get_page_ptr-some :
    (area pnum : ℕ) → pnum ≤ 4 → get_page_ptr area pnum ≡ some (area + 4096 * pnum)
unfolding get_page_ptr
get_page_ptr-some area pnum h = ground arith

pub bm_bit_to_page-div : (i : ℕ) → i < 163840 → bm_bit_to_page i ≡ i / 32768
unfolding bm_bit_to_page
bm_bit_to_page-div i h = ground arith

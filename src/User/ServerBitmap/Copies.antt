-- ===== src/User/ServerBitmap/Copies.antt =====
-- Copying and clearing of bitmaps, word by word.
use greko.Base.{
  ℕ, zero, suc, ◌+◌, ◌-◌, ◌*◌, ◌/◌, ◌%◌, ◌≤◌, ◌≡◌, sym, ap, ap₂, ◌∙◌, ◌&&◌, ltb, leb, if◌then◌else◌,
  arith, ◌⊎◌,
}
use greko.Base.Loops.{for_range}
use greko.Memory.{Memory, load, store, unmark}
use greko.Memory.Laws.{store-zero, unmark_join, unmark_empty, store-load}
use greko.User.ServerBitmap.{copy_mmaped_bitmap, clear_active_bitmap}

copy_loop :
    (dest src words n i : ℕ) (m : Memory) (x : ℕ)
    → i + n ≤ words
    → (src + 8 * words ≤ dest) ⊎ (dest + 8 * words ≤ src)
    → for_range n i (λ i m. store 64 m (dest + 8 * i) (load 64 m (src + 8 * i))) m x ≡ (
        if leb (8 * (dest + 8 * i)) x && ltb x (8 * (dest + 8 * (i + n)))
        then m (8 * src + (x - 8 * dest))
        else m x)
unfolding for_range
copy_loop dest src words zero i m x le apart = ground arith
copy_loop dest src words (suc n) i m x le apart =
    let m1 = store 64 m (dest + 8 * i) (load 64 m (src + 8 * i)) in
    let here = store-load 64 m (dest + 8 * i) (src + 8 * i) x in
    let there = store-load 64 m (dest + 8 * i) (src + 8 * i) (8 * src + (x - 8 * dest)) in
    copy_loop dest src words n (suc i) m1 x (omega arith) apart ∙ ground (arith, here, there)

-- Copying whole words between ranges that are apart copies the bits, and changes no bit outside the
-- destination.
pub copy_mmaped_bitmap-bits :
    (dest src nbytes : ℕ) (m : Memory) (x : ℕ)
    → nbytes % 8 ≡ 0
    → (src + nbytes ≤ dest) ⊎ (dest + nbytes ≤ src)
    → copy_mmaped_bitmap dest src nbytes m x ≡ (
        if leb (8 * dest) x && ltb x (8 * (dest + nbytes))
        then m (8 * src + (x - 8 * dest))
        else m x)
unfolding copy_mmaped_bitmap
copy_mmaped_bitmap-bits dest src nbytes m x whole apart =
    copy_loop dest src (nbytes / 8) (nbytes / 8) 0 m x (omega arith) (ground arith) ∙ ground arith

clear_loop :
    (dest n i : ℕ) (m : Memory)
    → for_range n i (λ i m. store 64 m (dest + 8 * i) 0) m
      ≡ unmark (8 * (dest + 8 * i)) (8 * (dest + 8 * (i + n))) m
unfolding for_range
clear_loop dest zero i m =
    sym (unmark_empty (8 * (dest + 8 * i)) (8 * (dest + 8 * (i + 0))) m (omega arith))
clear_loop dest (suc n) i m =
    clear_loop dest n (suc i) (store 64 m (dest + 8 * i) 0)
    ∙ ap (unmark (8 * (dest + 8 * suc i)) (8 * (dest + 8 * (suc i + n))))
        (store-zero 64 m (dest + 8 * i) ∙ ap (λ k. unmark (8 * (dest + 8 * i)) k m) (omega arith))
    ∙ unmark_join (8 * (dest + 8 * i)) (8 * (dest + 8 * suc i)) (8 * (dest + 8 * (suc i + n))) m
        (omega arith) (omega arith)
    ∙ ap (λ k. unmark (8 * (dest + 8 * i)) k m) (omega arith)

-- Clearing whole words clears the bits of the range, and no other.
pub clear_active_bitmap-unmark :
    (dest nbytes : ℕ) (m : Memory)
    → nbytes % 8 ≡ 0
    → clear_active_bitmap dest nbytes m ≡ unmark (8 * dest) (8 * (dest + nbytes)) m
unfolding clear_active_bitmap
clear_active_bitmap-unmark dest nbytes m whole =
    clear_loop dest (nbytes / 8) 0 m ∙ ap₂ (λ a b. unmark a b m) (omega arith) (omega arith)

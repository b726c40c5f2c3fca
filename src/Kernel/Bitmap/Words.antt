-- ===== src/Kernel/Bitmap/Words.antt =====
-- `ebdr_bm_set_bits` of kernel/atdr_linux/atdr_bitmap.c, which works bit by bit at the two ends of a
-- range and word by word between them.
use greko.Base.{
  ℕ, zero, suc, ◌+◌, ◌-◌, ◌*◌, ◌/◌, ◌%◌, ◌^◌, ◌≤◌, ◌<◌, ◌≡◌, refl, true, false, ltb, leb,
  if◌then◌else◌, arith, ap, ap₂, ◌==◌, ==_ne, ◌∙◌, ◌⊎◌, inl, inr, sym, dec_lt, dec_le,
}
use greko.Base.Loops.{for_range}
use greko.Memory.{Memory, mark, store}
use greko.Memory.Laws.{mark_empty, mark_join, mark_at, mark_join_at, store-ones}
use greko.Base.Bits.{bit_not}
use greko.Kernel.Bitmap.{
  Bitmap, bm_change_bits, bm_set_words, bm_set_bits, set_pages, set_words_at, clip, long_floor,
}
use greko.Kernel.Bitmap.Single.{get_page_ptr-some}
use greko.Kernel.Bitmap.Ranges.{bm_change_bits-paint}

words_loop :
    (padd n i : ℕ) (m : Memory)
    → for_range n i (λ i m. store 64 m (padd + 8 * i) (bit_not 64 0)) m
      ≡ mark (8 * padd + 64 * i) (8 * padd + 64 * (i + n)) m
unfolding for_range
words_loop padd zero i m = sym (mark_empty _ _ m (omega arith))
words_loop padd (suc n) i m =
    words_loop padd n (suc i) (store 64 m (padd + 8 * i) (bit_not 64 0))
    ∙ ap (mark (8 * padd + 64 * suc i) (8 * padd + 64 * (suc i + n)))
        (store-ones 64 m (padd + 8 * i))
    ∙ ap₂ (λ k l. mark (8 * padd + 64 * suc i) l (mark (8 * (padd + 8 * i)) k m)) (omega arith)
        (omega arith)
    ∙ ap
        (λ k.
          mark (8 * padd + 64 * suc i) (8 * padd + 64 * (i + suc n))
            (mark k (8 * padd + 64 * suc i) m))
        (omega arith)
    ∙ mark_join (8 * padd + 64 * i) (8 * padd + 64 * suc i) (8 * padd + 64 * (i + suc n)) m
        (omega arith) (omega arith)

pub bm_set_words-mark :
    (area pno start end : ℕ) (m : Memory)
    → pno ≤ 4
    → start ≤ end
    → (bm_set_words area pno start end m).1
      ≡ mark (8 * area + 32768 * pno + 64 * start) (8 * area + 32768 * pno + 64 * end) m
unfolding bm_set_words
bm_set_words-mark area pno start end m h le =
    ap (λ p. (set_words_at p start end m).1) (get_page_ptr-some area pno h)
    ∙ words_loop (area + 4096 * pno) (end - start) start m
    ∙ ap₂ (λ k l. mark k l m) (omega arith) (omega arith)

set_pages-mark :
    (area pages pnum fword : ℕ) (m : Memory)
    → pnum + pages ≤ 5
    → fword ≤ 512
    → 0 < pages
    → set_pages area pages pnum fword m
      ≡ mark (8 * area + 32768 * pnum + 64 * fword) (8 * area + 32768 * (pnum + pages)) m
unfolding set_pages
set_pages-mark area zero pnum fword m h f z = absurd (omega arith)
set_pages-mark area (suc zero) pnum fword m h f z =
    bm_set_words-mark area pnum fword 512 m (omega arith) f
    ∙ ap (λ l. mark (8 * area + 32768 * pnum + 64 * fword) l m) (omega arith)
set_pages-mark area (suc (suc pages)) pnum fword m h f z =
    set_pages-mark area (suc pages) (suc pnum) 0 (bm_set_words area pnum fword 512 m).1
      (omega arith) (omega arith) (omega arith)
    ∙ ap₂ (λ k m. mark k (8 * area + 32768 * (suc pnum + suc pages)) m) (omega arith)
        (bm_set_words-mark area pnum fword 512 m (omega arith) f)
    ∙ mark_join (8 * area + 32768 * pnum + 64 * fword) (8 * area + 32768 * pnum + 64 * 512)
        (8 * area + 32768 * (suc pnum + suc pages)) m (omega arith) (omega arith)
    ∙ ap (λ l. mark (8 * area + 32768 * pnum + 64 * fword) l m) (omega arith)

clip-lt : (nbits end : ℕ) → end < nbits → clip nbits end ≡ end
clip-lt nbits end h = ground arith

-- The two word loops of `ebdr_bm_set_bits`, from the long at bit `b1` to that at `e1`.
middle : ℕ → ℕ → ℕ → Memory → Memory
middle area b1 e1 m =
    let fpage = b1 / 2 ^ 15 in
    let lpage = e1 / 2 ^ 15 in
    let fword = b1 / 2 ^ 6 % 512 in
    let lword = e1 / 2 ^ 6 % 512 in
    let pages = set_pages area (lpage - fpage) fpage fword m in
    let fword' = if ltb fpage lpage then 0 else fword in
    if 0 == lword then pages else (bm_set_words area lpage fword' lword pages).1

last_words :
    (area lpage lword from : ℕ) (m : Memory)
    → lpage ≤ 4 ⊎ (lword ≡ 0)
    → from ≤ lword
    → (if 0 == lword then m else (bm_set_words area lpage from lword m).1)
      ≡ mark (8 * area + 32768 * lpage + 64 * from) (8 * area + 32768 * lpage + 64 * lword) m
last_words area lpage zero from m h le = sym (mark_empty _ _ m (omega arith))
last_words area lpage (suc w) from m (inl h) le =
    rw (==_ne 0 (suc w) (omega arith)) (bm_set_words-mark area lpage from (suc w) m h le)
last_words area lpage (suc w) from m (inr h) le = absurd (omega arith)

-- Both ends are multiples of 64 within five pages.
middle-mark :
    (area x y : ℕ) (m : Memory)
    → x ≤ y
    → 64 * y ≤ 163840
    → middle area (64 * x) (64 * y) m ≡ mark (8 * area + 64 * x) (8 * area + 64 * y) m
unfolding middle set_pages
middle-mark area x y m le h = elim (dec_lt fpage lpage) [
  | yes p ↦
      let from : (if ltb fpage lpage then 0 else fword) ≡ 0 = ground arith in
      ap (λ f. if 0 == lword then pages else (bm_set_words area lpage f lword pages).1) from
      ∙ last_words area lpage lword 0 pages ends (omega arith)
      ∙ ap (mark _ _) (
          set_pages-mark area (lpage - fpage) fpage fword m (omega arith) (omega arith)
            (omega arith))
      ∙ mark_join_at m (omega arith) (omega arith) (omega arith) (omega arith) (omega arith)
  | no p ↦
      let from : (if ltb fpage lpage then 0 else fword) ≡ fword = ground arith in
      let none_left : lpage - fpage ≡ 0 = omega arith in
      ap₂ (λ f m'. if 0 == lword then m' else (bm_set_words area lpage f lword m').1) from
        (ap (λ k. set_pages area k fpage fword m) none_left)
      ∙ last_words area lpage lword fword m ends (omega arith)
      ∙ mark_at m (omega arith) (omega arith)
]
  where
    fpage : ℕ
    fpage = 64 * x / 2 ^ 15

    lpage : ℕ
    lpage = 64 * y / 2 ^ 15

    fword : ℕ
    fword = 64 * x / 2 ^ 6 % 512

    lword : ℕ
    lword = 64 * y / 2 ^ 6 % 512

    pages : Memory
    pages = set_pages area (lpage - fpage) fpage fword m

    ends : lpage ≤ 4 ⊎ (lword ≡ 0)
    ends = ground arith

range_bits :
    (b : Bitmap) (begin end : ℕ) (m : Memory)
    → end < b.bitmap_size
    → end < 163840
    → bm_change_bits b begin end 1 m
      ≡ mark (8 * b.bitmap_area + begin) (8 * b.bitmap_area + suc end) m
range_bits b begin end m h small =
    let whole : clip b.bitmap_size end ≡ end = clip-lt b.bitmap_size end h in
    bm_change_bits-paint b begin end 1 m (omega arith)
    ∙ mark_at m refl (ap (λ k. 8 * b.bitmap_area + suc k) whole)

-- The bits before `b1` and the bits from `e1`, which `ebdr_bm_change_bits` sets one at a time.
head_bits :
    (b : Bitmap) (begin b1 : ℕ) (m : Memory)
    → begin ≤ b1
    → b1 < suc b.bitmap_size
    → b1 ≤ 163840
    → (0 ≡ b1 → begin ≡ 0)
    → (if 0 == b1 then m else bm_change_bits b begin (b1 - 1) 1 m)
      ≡ mark (8 * b.bitmap_area + begin) (8 * b.bitmap_area + b1) m
head_bits b begin zero m le h small z = sym (mark_empty _ _ m (omega arith))
head_bits b begin (suc k) m le h small z =
    rw (==_ne 0 (suc k) (omega arith))
      (range_bits b begin (suc k - 1) m (omega arith) (omega arith) ∙ mark_at m refl (omega arith))

tail_bits :
    (b : Bitmap) (e1 end : ℕ) (m : Memory)
    → e1 ≤ suc end
    → end < b.bitmap_size
    → end < 163840
    → (if leb e1 end then bm_change_bits b e1 end 1 m else m)
      ≡ mark (8 * b.bitmap_area + e1) (8 * b.bitmap_area + suc end) m
tail_bits b e1 end m le h small = elim (dec_le e1 end) [
  | yes p ↦ let test : leb e1 end ≡ true = ground arith in rw test (range_bits b e1 end m h small)
  | no p ↦
      let test : leb e1 end ≡ false = ground arith in rw test (sym (mark_empty _ _ m (omega arith)))
]

-- The long branch of `ebdr_bm_set_bits` at the two long boundaries.
by_words : Bitmap → ℕ → ℕ → ℕ → ℕ → Memory → Memory
by_words b begin end b1 e1 m =
    let words =
      middle b.bitmap_area b1 e1 (if 0 == b1 then m else bm_change_bits b begin (b1 - 1) 1 m) in
    if leb e1 end then bm_change_bits b e1 end 1 words else words

by_words-mark :
    (b : Bitmap) (begin end x y : ℕ) (m : Memory)
    → begin ≤ 64 * x
    → 64 * x ≤ begin + 63
    → x ≤ y
    → 64 * y ≤ suc end
    → end < b.bitmap_size
    → end < 163840
    → by_words b begin end (64 * x) (64 * y) m
      ≡ mark (8 * b.bitmap_area + begin) (8 * b.bitmap_area + suc end) m
unfolding by_words
by_words-mark b begin end x y m le tight xy ye h small =
    tail_bits b (64 * y) end (middle b.bitmap_area (64 * x) (64 * y) head) ye h small
    ∙ ap (mark (8 * b.bitmap_area + 64 * y) (8 * b.bitmap_area + suc end)) (
        middle-mark b.bitmap_area x y head xy (omega arith)
        ∙ ap (mark (8 * b.bitmap_area + 64 * x) (8 * b.bitmap_area + 64 * y))
            (head_bits b begin (64 * x) m le (omega arith) (omega arith) (λ z. omega arith))
        ∙ mark_join _ _ _ m (omega arith) (omega arith))
    ∙ mark_join _ _ _ m (omega arith) (omega arith)
  where
    head : Memory
    head = if 0 == 64 * x then m else bm_change_bits b begin (64 * x - 1) 1 m

-- On a range inside the bitmap and inside five pages, `ebdr_bm_set_bits` sets exactly the bits from
-- `begin` to `end`, and changes no other bit of the memory.
pub bm_set_bits-mark :
    (b : Bitmap) (begin end : ℕ) (m : Memory)
    → begin ≤ end
    → end < b.bitmap_size
    → end < 163840
    → bm_set_bits b begin end m ≡ mark (8 * b.bitmap_area + begin) (8 * b.bitmap_area + suc end) m
unfolding bm_set_bits middle by_words
bm_set_bits-mark b begin end m le h small = elim (dec_le (end - begin) 192) [
  | yes p ↦
      let short : leb ((end + 2 ^ 64 - begin) % 2 ^ 64) 192 ≡ true = ground arith in
      rw short (range_bits b begin end m h small)
  | no p ↦
      let long : leb ((end + 2 ^ 64 - begin) % 2 ^ 64) 192 ≡ false = ground arith in
      let first : long_floor ((begin + 63) % 2 ^ 64) ≡ 64 * ((begin + 63) / 64) = omega arith in
      let last : long_floor ((end + 1) % 2 ^ 64) ≡ 64 * ((end + 1) / 64) = omega arith in
      rw long (
        ap₂ (λ b1 e1. by_words b begin end b1 e1 m) first last
        ∙ by_words-mark b begin end ((begin + 63) / 64) ((end + 1) / 64) m (omega arith)
            (omega arith) (omega arith) (omega arith) h small)
]

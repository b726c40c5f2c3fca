-- ===== src/Kernel/Bitmap/Ranges.antt =====
-- The bit loop `ebdr_bm_change_bits` of kernel/atdr_linux/atdr_bitmap.c.
use greko.Base.{
  ℕ, zero, suc, ◌+◌, ◌-◌, ◌*◌, ◌/◌, ◌%◌, ◌≤◌, ◌<◌, ◌≡◌, refl, Bool, true, false, Option, none, some,
  if◌then◌else◌, arith, dec_lt, ap, ap₂, ◌==◌, ◌∙◌, ◌⊎◌, inl, inr, sym,
}
use greko.Base.Loops.{for_range}
use greko.Memory.{Memory, mark, unmark}
use greko.Memory.Laws.{mark_empty, mark_join, unmark_empty, unmark_join}
use greko.Kernel.Bitmap.{
  Bitmap, Cursor, change_bit, turn_page, bm_change_bits, clip, bm_set_bit2, bm_clear_bit2,
  get_page_ptr, bm_bit_to_page,
}
use greko.Kernel.Bitmap.Single.{
  bm_set_bit2-mark, bm_clear_bit2-unmark, get_page_ptr-some, bm_bit_to_page-div,
}

-- The reference update: set or clear.
abbrev pub paint : Bool → ℕ → ℕ → Memory → Memory
paint true = mark
paint false = unmark

paint_empty : (set : Bool) (lo hi : ℕ) (m : Memory) → hi ≤ lo → paint set lo hi m ≡ m
paint_empty true = mark_empty
paint_empty false = unmark_empty

paint_join :
    (set : Bool) (lo mid hi : ℕ) (m : Memory)
    → lo ≤ mid
    → mid ≤ hi
    → paint set mid hi (paint set lo mid m) ≡ paint set lo hi m
paint_join true = mark_join
paint_join false = unmark_join

-- The cached pointer is that of the cached page.
record IsCursor (area : ℕ) (c : Cursor) : Type 0 where
  cached : (c.lpage ≡ none) ⊎ ((p : ℕ) × (c.lpage ≡ some p) × (c.paddr ≡ get_page_ptr area p))

turn_page-paddr :
    (area pnum : ℕ) (c : Cursor)
    → IsCursor area c
    → ((turn_page area pnum c).paddr ≡ get_page_ptr area pnum)
      × ((turn_page area pnum c).lpage ≡ some pnum)
      × ((turn_page area pnum c).memory ≡ c.memory)
unfolding turn_page
turn_page-paddr area pnum c v = ground arith

paint_bit : Bool → ℕ → Option ℕ → Memory → Memory
paint_bit set num p m = if set then (bm_set_bit2 num p m).1 else (bm_clear_bit2 num p m).1

paint_bit-paint :
    (set : Bool) (num arg k : ℕ) (m : Memory)
    → 8 * arg + num ≡ k
    → paint_bit set num (some arg) m ≡ paint set k (k + 1) m
unfolding paint_bit
paint_bit-paint true num arg k m e = rw (bm_set_bit2-mark num arg m) (ap (λ k. mark k (k + 1) m) e)
paint_bit-paint false num arg k m e =
    rw (bm_clear_bit2-unmark num arg m) (ap (λ k. unmark k (k + 1) m) e)

change_bit-memory :
    (area : ℕ) (set : Bool) (i : ℕ) (c : Cursor)
    → i < 163840
    → IsCursor area c
    → (change_bit area set i c).memory ≡ paint set (8 * area + i) (8 * area + i + 1) c.memory
unfolding change_bit paint_bit
change_bit-memory area set i c h v =
    let t = turn_page area (bm_bit_to_page i) c in
    let (paddr, _, memory) = turn_page-paddr area (bm_bit_to_page i) c v in
    let page = bm_bit_to_page-div i h in
    let pointer : t.paddr ≡ some (area + 4096 * (i / 32768)) =
      paddr ∙ ap (get_page_ptr area) page ∙ get_page_ptr-some area (i / 32768) (omega arith) in
    ap₂ (paint_bit set (i % 32768)) pointer memory
    ∙ paint_bit-paint set (i % 32768) (area + 4096 * (i / 32768)) (8 * area + i) c.memory
        (omega arith)

change_bit-IsCursor :
    (area : ℕ) (set : Bool) (i : ℕ) (c : Cursor)
    → IsCursor area c
    → IsCursor area (change_bit area set i c)
unfolding change_bit
change_bit-IsCursor area set i c v =
    let (paddr, lpage, _) = turn_page-paddr area (bm_bit_to_page i) c v in
    record { cached = inr (bm_bit_to_page i, lpage, paddr) }

change_loop :
    (area : ℕ) (set : Bool) (n i : ℕ) (c : Cursor)
    → i + n ≤ 163840
    → IsCursor area c
    → (for_range n i (change_bit area set) c).memory
      ≡ paint set (8 * area + i) (8 * area + i + n) c.memory
unfolding for_range
change_loop area set zero i c h v = sym (paint_empty set _ _ c.memory (omega arith))
change_loop area set (suc n) i c h v =
    change_loop area set n (suc i) (change_bit area set i c) (omega arith)
      (change_bit-IsCursor area set i c v)
    ∙ ap₂ (λ k m. paint set k (k + n) m) (omega arith)
        (change_bit-memory area set i c (omega arith) v)
    ∙ paint_join set (8 * area + i) (8 * area + i + 1) (8 * area + i + 1 + n) c.memory (omega arith)
        (omega arith)
    ∙ ap (λ k. paint set (8 * area + i) k c.memory) (omega arith)

change_none :
    (area : ℕ) (set : Bool) (n i : ℕ) (c : Cursor)
    → n ≡ 0
    → (for_range n i (change_bit area set) c).memory ≡ c.memory
unfolding for_range
change_none area set zero i c e = refl
change_none area set (suc n) i c e = absurd (omega arith)

-- Within five pages, `ebdr_bm_change_bits` sets (`arg` is 1) or clears (any other `arg`) the bits of
-- the bitmap from `start` to the clipped `end`, and no other bit of the memory.
pub bm_change_bits-paint :
    (b : Bitmap) (start end arg : ℕ) (m : Memory)
    → clip b.bitmap_size end < 163840
    → bm_change_bits b start end arg m
      ≡ paint
          (arg == 1)
          (8 * b.bitmap_area + start)
          (8 * b.bitmap_area + suc (clip b.bitmap_size end))
          m
unfolding bm_change_bits
bm_change_bits-paint b start end arg m h =
    let last = clip b.bitmap_size end in
    let set = arg == 1 in
    let c : Cursor = record { lpage = none; paddr = none; memory = m } in
    let v : IsCursor b.bitmap_area c = record { cached = inl refl } in
    elim (dec_lt last start) [
      | yes over ↦
          change_none b.bitmap_area set (suc last - start) start c (omega arith)
          ∙ sym (paint_empty set _ _ m (omega arith))
      | no some_left ↦
          change_loop b.bitmap_area set (suc last - start) start c (omega arith) v
          ∙ ap (λ k. paint set (8 * b.bitmap_area + start) k m) (omega arith)
    ]

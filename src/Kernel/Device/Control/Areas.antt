-- ===== src/Kernel/Device/Control/Areas.antt =====
-- Where the bitmaps of the devices lie, and `EBDR_FLIP_BITMAP_AREA` of
-- kernel/atdr_linux/atdr_main.c.
use greko.Base.{
  ℕ, ◌+◌, ◌≡◌, ◌≢◌, refl, true, Option, none, some, update, arith, ap, ◌∙◌, update_self, update_ne,
}
use greko.Base.Int.{pos}
use greko.Kernel.Bitmap.{Bitmap, BitmapUser}
use greko.Kernel.Device.{Kernel, Ioctl, Answers, address}
use greko.Kernel.Device.Control.{
  Command, returned, read_user, user_number, flipped, flip_area, ctl_ioctl,
}

-- The bitmap lies at the start of the area, or one size behind it while the user reads the start.
abbrev pub Placed : Option ℕ → ℕ → Bitmap → Type 0
Placed area size b =
    b.bitmap_area
    ≡ elim b.bmap_user [ BitmapUser.kernel ↦ address area | BitmapUser.user ↦ address area + size ]

-- Flipping keeps a bitmap in its area.
pub flipped-Placed :
    (area : Option ℕ) (size : ℕ) (b : Bitmap)
    → Placed area size b
    → Placed area size (flipped b.bmap_user area size b)
unfolding flipped
flipped-Placed area size b h = ground arith

-- Where a bitmap is after the flip: in the other half.
pub flipped-area :
    (area : Option ℕ) (size : ℕ) (b : Bitmap)
    → Placed area size b
    → (flipped b.bmap_user area size b).bitmap_area ≡ elim b.bmap_user [
      | BitmapUser.kernel ↦ address area + size
      | BitmapUser.user ↦ address area
    ]
unfolding flipped
flipped-area area size b h = ground arith

flipped_twice :
    (area : Option ℕ) (size : ℕ) (b : Bitmap)
    → Placed area size b
    → let b' = flipped b.bmap_user area size b in flipped b'.bmap_user area size b' ≡ b
unfolding flipped
flipped_twice area size b h = ground arith

-- The kernel after a flip of the device `io.index`, whose bitmap is `p`.
abbrev pub after_flip : Ioctl → ℕ → Kernel → Kernel
after_flip io p k =
    let b = k.bitmaps p in
    record k {
      ioctl_obj = io;
      bitmaps =
          update k.bitmaps p
            (flipped b.bmap_user (k.vmalloc_area io.index) (k.vmalloc_area_sz io.index) b);
    }

flip_area-after_flip :
    (a : Answers) (io : Ioctl) (k : Kernel) (p : ℕ)
    → a.copied ≡ true
    → (k.device io.index).bitmap ≡ some p
    → flip_area a io k ≡ returned (pos 0) none (after_flip io p k)
unfolding flip_area
flip_area-after_flip a io k p c dev = rw (c, dev)

-- Two flips of the area of a device whose bitmap lies in it, each of which gets its control block
-- from the user, both succeed, and give back the bitmap, with its half and its user; the bitmaps at
-- other addresses are as before.
pub flip_area_twice :
    (a a' : Answers) (io : Ioctl) (k : Kernel) (p : ℕ)
    → a.copied ≡ true
    → a'.copied ≡ true
    → (k.device io.index).bitmap ≡ some p
    → Placed (k.vmalloc_area io.index) (k.vmalloc_area_sz io.index) (k.bitmaps p)
    → (k1 : Kernel) × (k2 : Kernel) × (flip_area a io k ≡ returned (pos 0) none k1)
      × (flip_area a' io k1 ≡ returned (pos 0) none k2)
      × (k2.bitmaps p ≡ k.bitmaps p)
      × ((q : ℕ) → q ≢ p → k2.bitmaps q ≡ k.bitmaps q)
flip_area_twice a a' io k p c c' dev placed =
    let k1 = after_flip io p k in
    (
      k1,
      after_flip io p k1,
      flip_area-after_flip a io k p c dev,
      flip_area-after_flip a' io k1 p c' dev,
      update_self k1.bitmaps p _
          ∙ ap (λ b. flipped b.bmap_user (k.vmalloc_area io.index) (k.vmalloc_area_sz io.index) b)
              (update_self k.bitmaps p _)
          ∙ flipped_twice (k.vmalloc_area io.index) (k.vmalloc_area_sz io.index) (k.bitmaps p)
              placed,
      λ q ne. update_ne (after_flip io p k).bitmaps p q _ ne ∙ update_ne k.bitmaps p q _ ne,
    )

-- The two requests as the daemon sends them, on a device that has a bitmap.
pub ctl_ioctl-flip :
    (a : Answers) (io : Ioctl) (k : Kernel) (p : ℕ)
    → a.copied ≡ true
    → (k.device io.index).bitmap ≡ some p
    → ctl_ioctl Command.flip_bitmap_area a io k ≡ returned (pos 0) none (after_flip io p k)
unfolding ctl_ioctl
ctl_ioctl-flip a io k p c dev = flip_area-after_flip a io k p c dev

pub ctl_ioctl-user :
    (a : Answers) (io : Ioctl) (k : Kernel) (p : ℕ)
    → a.copied ≡ true
    → (k.device io.index).bitmap ≡ some p
    → ctl_ioctl Command.get_user a io k
      ≡ returned (pos (user_number (k.bitmaps p).bmap_user)) none (record k { ioctl_obj = io })
unfolding ctl_ioctl read_user
ctl_ioctl-user a io k p c dev = rw (c, dev) refl

-- ===== src/Kernel/Device/Control.antt =====
-- The requests of the control device, `ebdr_ctl_ioctl` of atdr_main.c.
pub mod Areas
pub mod Invariant
pub mod Creation
pub mod Outcomes
pub mod Requests
pub mod Reachable
pub mod Failures
pub mod Names
pub mod Success
use greko.Base.{
  ℕ, zero, suc, ◌+◌, ◌-◌, ◌*◌, ◌%◌, ◌^◌, Bool, true, false, not, ltb, ◌&&◌, ◌||◌, Option, none,
  some, List, [], ◌∷◌, ◌==◌, if◌then◌else◌, update,
}
use greko.Base.Int.{ℤ, pos, negsuc}
use greko.Base.Loops.{for_range}
use greko.Kernel.Bitmap.{Bitmap, BitmapUser}
use greko.Kernel.Device.{
  Kernel, Device, Ioctl, Answers, Release, release, set_device, set_bitmap_at, address,
  state_dev_create, state_blkdev_destroy,
}

-- `enum ebdr_ioctl_cmds`; `other` is a number that the switch does not know.
pub data Command : Type 0 where
  dev_create blkdev_create blkdev_attach blkdev_destroy dev_destroy : Command
  get_grain_size set_grain_size get_user flip_bitmap_area blkdev_search other : Command

-- How a request ends: with a return value and what `copy_to_user` wrote, or with a NULL pointer
-- dereferenced or an array overrun in the kernel.
pub data Outcome : Type 0 where
  oops : Outcome
  returned : ℤ → Option ℕ → Kernel → Outcome

-- `B_ALLOCATED`
abbrev pub b_allocated : ℕ
b_allocated = 2

-- `MEMCTL_DEV_REG_ERROR`
abbrev pub memctl_dev_reg_error : ℤ
memctl_dev_reg_error = pos 2

abbrev pub first_bytes : ℕ → List ℕ → List ℕ
first_bytes zero xs = []
first_bytes (suc n) [] = 0 ∷ first_bytes n []
first_bytes (suc n) (x ∷ xs) = x ∷ first_bytes n xs

-- `memcmp(a, b, n) == 0`, on buffers filled up with zeros.
abbrev pub same_bytes : ℕ → List ℕ → List ℕ → Bool
same_bytes n a b = equal (first_bytes n a) (first_bytes n b)
  where
    equal : List ℕ → List ℕ → Bool
    equal [] [] = true
    equal [] (y ∷ ys) = false
    equal (x ∷ xs) [] = false
    equal (x ∷ xs) (y ∷ ys) = x == y && equal xs ys

-- `vmalloc_area[i]` is freed, if it is set, and becomes NULL.
pub free_vmalloc_area : ℕ → Kernel → Kernel
free_vmalloc_area i k =
    let k' : Kernel = elim (k.vmalloc_area i) [ none ↦ k | some a ↦ release (Release.vfree a) k ] in
    record k' { vmalloc_area = update k'.vmalloc_area i none }

-- `ebdr_minor_cleanup`
pub minor_cleanup : ℕ → Kernel → Kernel
unfolding free_vmalloc_area state_blkdev_destroy
minor_cleanup i k = release (Release.unregister_chrdev i) (
    release (Release.class_destroy i)
      (release (Release.device_destroy i) (free_vmalloc_area i (state_blkdev_destroy k))))

-- The last part of `EBDRCTL_DEV_CREATE`, through `device[minor].bitmap`.
pub finish_create : Kernel → Outcome
finish_create k =
    let i = k.minor in
    let d = k.device i in
    elim d.bitmap [
      | none ↦ oops
      | some p ↦
          let b : Bitmap = record (k.bitmaps p) {
            bmap_user = BitmapUser.kernel;
            bitmap_state = b_allocated;
          } in
          let k' : Kernel =
            set_device i (record d { disk_name = k.ioctl_obj.src_disk }) (set_bitmap_at p b k) in
          returned (pos 0) none (record k' { minor = suc i })
    ]

-- `MAX_MINOR`, the length of `device`, `vmalloc_area` and `vmalloc_area_sz`.
abbrev pub max_minor : ℕ
max_minor = 64

-- Whether `ebdr_blkdev_create` dereferences the NULL of `bdget`.
abbrev pub has_no_bdev : Answers → Bool
has_no_bdev a = a.blk_alloc_queue && a.alloc_disk && not a.bdget

-- `EBDRCTL_DEV_CREATE`; with 63 devices, the next one lies behind the arrays.
pub create : Answers → Ioctl → Kernel → Outcome
unfolding state_dev_create minor_cleanup finish_create
create a io k0 =
    if not a.copied
    then returned (negsuc 0) none k0
    else if not (ltb k0.minor max_minor)
    then oops
    else (let i = k0.minor in
        let k : Kernel = record k0 {
          ioctl_obj = io;
          vmalloc_area_sz = update k0.vmalloc_area_sz i io.u_bitmap_size;
          vmalloc_area = update k0.vmalloc_area i a.vmalloc_user;
        } in
        elim a.vmalloc_user [
          | none ↦ returned memctl_dev_reg_error none k
          | some _ ↦
              if not a.class_create
              then returned memctl_dev_reg_error none k
              else if has_no_bdev a
              then oops
              else (let (ok, k') = state_dev_create a k in
                  if ok
                  then finish_create k'
                  else returned memctl_dev_reg_error none (minor_cleanup i k'))
        ])

-- `EBDRCTL_SET_GRAIN_SIZE` goes through the global `bitmap`, and checks the bitmap of the device
-- `index` only for the lock.
pub resize_grain : Answers → Ioctl → Kernel → Outcome
resize_grain a io k0 =
    if a.copied
    then (let i = k0.minor in
        elim (k0.device io.index).bitmap [
          | none ↦ oops
          | some _ ↦ elim k0.bitmap [
            | none ↦ oops
            | some p ↦
                let b : Bitmap = record (k0.bitmaps p) {
                  grain_size = io.u_grain_size;
                  bitmap_size = io.u_bitmap_size * 8 % 2 ^ 64;
                } in
                returned (pos 0) none (record k0 {
                  ioctl_obj = io;
                  u_grain_size = io.u_grain_size;
                  vmalloc_area_sz = update k0.vmalloc_area_sz i io.u_bitmap_size;
                  bitmaps = update k0.bitmaps p b;
                })
          ]
        ])
    else returned (negsuc 0) none k0

-- KERNEL is 0 and USER is 1.
abbrev pub user_number : BitmapUser → ℕ
user_number BitmapUser.kernel = 0
user_number BitmapUser.user = 1

pub read_user : Answers → Ioctl → Kernel → Outcome
read_user a io k0 =
    if a.copied
    then elim (k0.device io.index).bitmap [
      | none ↦ oops
      | some p ↦
          returned (pos (user_number (k0.bitmaps p).bmap_user)) none (record k0 { ioctl_obj = io })
    ]
    else returned (negsuc 0) none k0

-- The other half of the area, and the other user.
pub flipped : BitmapUser → Option ℕ → ℕ → Bitmap → Bitmap
flipped BitmapUser.user area size b = record b {
  bitmap_area = address area;
  bmap_user = BitmapUser.kernel;
}
flipped BitmapUser.kernel area size b = record b {
  bitmap_area = b.bitmap_area + size;
  bmap_user = BitmapUser.user;
}

pub flip_area : Answers → Ioctl → Kernel → Outcome
unfolding flipped
flip_area a io k0 =
    if a.copied
    then (let i = io.index in
        elim (k0.device i).bitmap [
          | none ↦ oops
          | some p ↦
              let b = k0.bitmaps p in
              let b' = flipped b.bmap_user (k0.vmalloc_area i) (k0.vmalloc_area_sz i) b in
              returned (pos 0) none (record k0 { ioctl_obj = io; bitmaps = update k0.bitmaps p b' })
        ])
    else returned (negsuc 0) none k0

-- Whether one of the `n` devices from `i` on has a name with the same 20 first bytes.
unfoldable pub any_device : (ℕ → Device) → List ℕ → ℕ → ℕ → Bool
any_device device name zero i = false
any_device device name (suc n) i =
    same_bytes 20 (device i).disk_name name || any_device device name n (suc i)

abbrev pub max_ebdr_devices : ℕ
max_ebdr_devices = 10

pub search_device : Answers → Ioctl → Kernel → Outcome
unfolding any_device
search_device a io k0 =
    if a.copied
    then (let found = any_device k0.device io.src_disk max_ebdr_devices 0 in
        returned (pos 0) (some (if found then 1 else 0)) (record k0 { ioctl_obj = io }))
    else returned (negsuc 0) none k0

-- `EBDRCTL_GET_GRAIN_SIZE` copies the global `grain_size`; `copied` is `copy_to_user` there.
pub ctl_ioctl : Command → Answers → Ioctl → Kernel → Outcome
unfolding create resize_grain read_user flip_area search_device state_blkdev_destroy
ctl_ioctl Command.dev_create a io k = create a io k
ctl_ioctl Command.blkdev_destroy a io k = returned (pos 0) none (state_blkdev_destroy k)
ctl_ioctl Command.get_grain_size a io k =
    if a.copied then returned (pos 0) (some k.grain_size) k else returned (negsuc 0) none k
ctl_ioctl Command.set_grain_size a io k = resize_grain a io k
ctl_ioctl Command.get_user a io k = read_user a io k
ctl_ioctl Command.flip_bitmap_area a io k = flip_area a io k
ctl_ioctl Command.blkdev_search a io k = search_device a io k
ctl_ioctl Command.blkdev_create a io k = returned (pos 0) none k
ctl_ioctl Command.blkdev_attach a io k = returned (pos 0) none k
ctl_ioctl Command.dev_destroy a io k = returned (pos 0) none k
ctl_ioctl Command.other a io k = returned (pos 0) none k

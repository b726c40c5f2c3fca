-- ===== src/Kernel/Device.antt =====
-- The control device of the kernel module: kernel/atdr_linux/atdr_main.c, the device states of
-- kernel/atdr_linux/atdr_device.c and the bitmap areas of kernel/atdr_linux/atdr_memctl.c.
-- The globals of the module are one record. What Linux answers to the calls that a request makes
-- (allocations, `copy_from_user`, the class, queue, disk and backing device) is an argument, and the
-- calls that give something back are logged.
pub mod Control
use greko.Base.{
  ℕ, zero, suc, ◌+◌, ◌-◌, ◌*◌, ◌/◌, ◌%◌, ◌^◌, Bool, true, false, Option, none, some, List, [], ◌∷◌,
  if◌then◌else◌, update,
}
use greko.Base.Int.{ℤ, pos, negsuc}
use greko.Base.Loops.{for_range}
use greko.Memory.{Memory}
use greko.Kernel.Bitmap.{Bitmap, BitmapUser, clear_bmap}

-- The fields of `struct ebdr_device` that the module writes; a pointer to a kernel object is whether
-- it is set, `bitmap` is an index of `Kernel.bitmaps`.
pub record Device : Type 0 where
  pub disk_name : List ℕ
  pub minor : ℕ
  pub vnr : ℕ
  pub bitmap : Option ℕ
  pub ldev : Bool
  pub rq_queue : Bool
  pub vdisk : Bool
  pub this_bdev : Bool
  -- The size of the gendisk, and `this_bdev->bd_inode->i_size`.
  pub capacity : ℕ
  pub i_size : ℕ

-- `IOCTL`, what the daemon sends.
pub record Ioctl : Type 0 where
  pub src_disk : List ℕ
  pub u_grain_size : ℕ
  pub u_bitmap_size : ℕ
  pub bmap_user : ℕ
  pub index : ℕ

-- Calls by which the module gives an object back to Linux.
pub data Release : Type 0 where
  put_disk del_gendisk blkdev_put bdput blk_cleanup_queue : ℕ → Release
  vfree : ℕ → Release
  device_destroy class_destroy unregister_chrdev : ℕ → Release

pub record Kernel : Type 0 where
  pub minor : ℕ
  pub device : ℕ → Device
  pub bitmaps : ℕ → Bitmap
  -- Where the next `kzalloc` of a bitmap lies.
  pub next_bitmap : ℕ
  -- The global `bitmap`: the one that was allocated last.
  pub bitmap : Option ℕ
  pub vmalloc_area : ℕ → Option ℕ
  pub vmalloc_area_sz : ℕ → ℕ
  pub blkdev : ℕ → Option ℕ
  pub ioctl_obj : Ioctl
  pub grain_size : ℕ
  pub u_grain_size : ℕ
  pub memory : Memory
  pub released : List Release

-- What Linux answers during one request.
pub record Answers : Type 0 where
  pub copied : Bool
  pub vmalloc_user : Option ℕ
  pub class_create : Bool
  pub kzalloc : Bool
  pub blk_alloc_queue : Bool
  pub alloc_disk : Bool
  -- Whether `bdget` gives an object; NULL is dereferenced.
  pub bdget : Bool
  -- The backing device and its size in bytes.
  pub blkdev_get_by_path : Option (ℕ × ℕ)

abbrev pub release : Release → Kernel → Kernel
release r k = record k { released = r ∷ k.released }

abbrev pub set_device : ℕ → Device → Kernel → Kernel
set_device i d k = record k { device = update k.device i d }

abbrev pub set_bitmap_at : ℕ → Bitmap → Kernel → Kernel
set_bitmap_at p b k = record k { bitmaps = update k.bitmaps p b }

abbrev pub address : Option ℕ → ℕ
address none = 0
address (some a) = a

-- `memset(bitmap, '0', ...)` fills the object with the character `0`, 0x30.
abbrev pub zero_chars : ℕ
zero_chars = 0x30303030

-- `ebdr_init_bmap`; its -ENOMEM leaves the global pointer NULL, and no caller looks at it.
pub init_bmap : Answers → ℕ → Kernel → Kernel
init_bmap a i k =
    if a.kzalloc
    then (let p = k.next_bitmap in
        let b : Bitmap = record {
          bitmap_area = address (k.vmalloc_area i);
          bitmap_size = k.vmalloc_area_sz i * 8 % 2 ^ 64;
          grain_size = k.ioctl_obj.u_grain_size;
          bitmap_version = zero_chars;
          bitmap_state = zero_chars;
          bmap_user = BitmapUser.kernel;
        } in
        record k {
          bitmap = some p;
          next_bitmap = suc p;
          bitmaps = update k.bitmaps p b;
          device = update k.device i (record (k.device i) { bitmap = some p });
          memory = clear_bmap b k.memory;
        })
    else record k { bitmap = none }

-- `ebdr_device_create`, which always returns 0.
pub device_create : Answers → ℕ → Kernel → Kernel
unfolding init_bmap
device_create a i k = init_bmap a i (set_device i (record (k.device i) { minor = i; vnr = 10 }) k)

-- `ebdr_blkdev_create`: false is its -1. `this_bdev` is what `bdget` gives, which is dereferenced
-- at once; for NULL that is the oops of `create`.
pub blkdev_create : Answers → ℕ → Kernel → Bool × Kernel
blkdev_create a i k =
    if a.blk_alloc_queue
    then (let d : Device = record (k.device i) { rq_queue = true } in
        if a.alloc_disk
        then (true, set_device i (record d { vdisk = true; this_bdev = a.bdget }) k)
        else (false, release (blk_cleanup_queue i) (set_device i d k)))
    else (false, k)

-- `ebdr_blkdev_destroy`: neither `blkdev[i]` nor `this_bdev` is set to NULL.
pub blkdev_destroy : ℕ → Kernel → Kernel
blkdev_destroy i k =
    let d = k.device i in
    let k1 : Kernel = set_device i (record d { ldev = false }) k in
    let k2 : Kernel =
      if d.vdisk
      then set_device i (record d { ldev = false; vdisk = false })
          (release (del_gendisk i) (release (put_disk i) k1))
      else k1 in
    let k3 : Kernel = elim (k.blkdev i) [ none ↦ k2 | some _ ↦ release (blkdev_put i) k2 ] in
    let k4 : Kernel = if d.this_bdev then release (bdput i) k3 else k3 in
    release (blk_cleanup_queue i) k4

-- `ebdr_device_attach_blkdev`: false is its -1. Both sizes are
-- `ebdr_get_capacity`, the bytes of the backing device `>> 9`.
pub attach_blkdev : Answers → ℕ → Kernel → Bool × Kernel
attach_blkdev a i k = elim a.blkdev_get_by_path [
  | none ↦ (false, record k { blkdev = update k.blkdev i none })
  | some (dev, size) ↦ (
    true,
    record k {
      blkdev = update k.blkdev i (some dev);
      device =
          update k.device i
            (record (k.device i) { ldev = true; capacity = size / 2 ^ 9; i_size = size / 2 ^ 9 });
    },
  )
]

-- `EBDR_BLKDEV_ATTACH`
pub state_attach : Answers → Kernel → Bool × Kernel
unfolding attach_blkdev blkdev_destroy
state_attach a k =
    let (ok, k') = attach_blkdev a k.minor k in
    if ok then (true, k') else (false, blkdev_destroy k.minor k')

-- `EBDR_BLKDEV_CREATE`
pub state_blkdev_create : Answers → Kernel → Bool × Kernel
unfolding blkdev_create state_attach
state_blkdev_create a k =
    let (ok, k') = blkdev_create a k.minor k in if ok then state_attach a k' else (false, k')

-- `EBDR_DEV_CREATE`
pub state_dev_create : Answers → Kernel → Bool × Kernel
unfolding device_create state_blkdev_create
state_dev_create a k = state_blkdev_create a (device_create a k.minor k)

-- `EBDR_BLKDEV_DESTROY`: every device from 1 to `minor - 1`.
pub state_blkdev_destroy : Kernel → Kernel
unfolding for_range blkdev_destroy
state_blkdev_destroy k = for_range (k.minor - 1) 1 blkdev_destroy k

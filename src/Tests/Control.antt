-- ===== src/Tests/Control.antt =====
-- Requests to the control device of a module that was loaded, and of one with a device.
use greko.Base.{
  ℕ, suc, ◌<◌, ◌≤◌, ◌≡◌, ◌≢◌, ◌↔◌, refl, true, false, none, some, [], ◌∷◌, arith, update,
}
use greko.Base.Int.{pos}
use greko.Kernel.Device.{Kernel, Device, Ioctl, Answers}
use greko.Kernel.Device.Control.{returned, create, flip_area, search_device, same_bytes}
use greko.Kernel.Device.Control.Areas.{flip_area_twice}
use greko.Kernel.Device.Control.Invariant.{IsConsistent}
use greko.Kernel.Device.Control.Reachable.{IsLoaded, Reachable}
use greko.Kernel.Device.Control.Failures.{create-failure}
use greko.Kernel.Device.Control.Success.{create-success}
use greko.Kernel.Device.Control.Names.{search_device-finds}
use greko.Tests.Tracking.{small_bitmap, clean}

abbrev no_device : Device
no_device = record {
  disk_name = [];
  minor = 0;
  vnr = 0;
  bitmap = none;
  ldev = false;
  rq_queue = false;
  vdisk = false;
  this_bdev = false;
  capacity = 0;
  i_size = 0;
}

abbrev pub a_request : Ioctl
a_request = record {
  src_disk = 115 ∷ 100 ∷ [];
  u_grain_size = 4096;
  u_bitmap_size = 16384;
  bmap_user = 0;
  index = 1;
}

abbrev pub loaded : Kernel
loaded = record {
  minor = 1;
  device = λ i. no_device;
  bitmaps = λ i. small_bitmap;
  next_bitmap = 0;
  bitmap = none;
  vmalloc_area = λ i. none;
  vmalloc_area_sz = λ i. 0;
  blkdev = λ i. none;
  ioctl_obj = a_request;
  grain_size = 4096;
  u_grain_size = 0;
  memory = clean;
  released = [];
}

abbrev loaded-IsLoaded : IsLoaded loaded
loaded-IsLoaded = record { minor = refl; bitmaps = λ i. refl }

-- Linux grants every call.
abbrev pub granted : Answers
granted = record {
  copied = true;
  vmalloc_user = some 65536;
  class_create = true;
  kzalloc = true;
  blk_alloc_queue = true;
  alloc_disk = true;
  bdget = true;
  blkdev_get_by_path = some (7, 1048576);
}

-- Linux has no disk left.
abbrev refused : Answers
refused = record {
  copied = true;
  vmalloc_user = some 131072;
  class_create = true;
  kzalloc = true;
  blk_alloc_queue = true;
  alloc_disk = false;
  bdget = true;
  blkdev_get_by_path = some (7, 1048576);
}

-- A module with the device 1, whose area is at 65536.
abbrev pub one_device : Kernel
one_device = record loaded {
  minor = 2;
  device = update loaded.device 1 (record no_device { bitmap = some 0; vdisk = true; ldev = true });
  bitmaps =
      update loaded.bitmaps 0 (record small_bitmap { bitmap_area = 65536; bitmap_size = 131072 });
  next_bitmap = 1;
  bitmap = some 0;
  vmalloc_area = update loaded.vmalloc_area 1 (some 65536);
  vmalloc_area_sz = update loaded.vmalloc_area_sz 1 16384;
}

flip_area_twice_example :
    (k1 : Kernel) × (k2 : Kernel) × (flip_area granted a_request one_device
      ≡ returned (pos 0) none k1)
    × (flip_area granted a_request k1 ≡ returned (pos 0) none k2)
    × (k2.bitmaps 0 ≡ one_device.bitmaps 0)
    × ((q : ℕ) → q ≢ 0 → k2.bitmaps q ≡ one_device.bitmaps q)
flip_area_twice_example = flip_area_twice granted granted a_request one_device 0 refl refl refl refl

pub loaded-IsConsistent : IsConsistent loaded
loaded-IsConsistent = record {
  fresh = λ i p e. ground arith;
  owned = λ i j p e f. ground arith;
  placed = λ i p lo hi e. ground arith;
  live = λ i lo hi. ground arith;
  last = λ lo. ground arith;
  bounded = omega arith;
}

create-failure_example :
    (k' : Kernel) × (create refused a_request one_device ≡ returned (pos 2) none k')
    × ((j : ℕ)
        → 1 ≤ j
        → j < one_device.minor
        → ((k'.device j).ldev ≡ false) × ((k'.device j).vdisk ≡ false))
create-failure_example =
    create-failure refused a_request one_device 131072 (omega arith) refl refl refl refl refl

search_device-finds_example :
    (found : ℕ) × (k' : Kernel) × (search_device granted a_request one_device
      ≡ returned (pos 0) (some found) k')
    × ((found ≡ 1) ↔ (
        (j : ℕ) × (j < 10)
        × (same_bytes 20 (one_device.device j).disk_name a_request.src_disk ≡ true)))
search_device-finds_example = search_device-finds granted a_request one_device refl

create-success_example :
    (k' : Kernel) × (create granted a_request loaded ≡ returned (pos 0) none k')
    × (k'.minor ≡ suc loaded.minor)
    × ((k'.device loaded.minor).bitmap ≡ some loaded.next_bitmap)
create-success_example =
    create-success granted a_request loaded 65536 (omega arith) refl loaded-IsConsistent refl refl
      refl refl refl

-- The module after the creation of the device 1.
abbrev with_device : Kernel
with_device =
    (create-success granted a_request loaded 65536 (omega arith) refl loaded-IsConsistent refl refl
      refl refl refl).0

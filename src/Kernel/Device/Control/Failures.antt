-- ===== src/Kernel/Device/Control/Failures.antt =====
-- A creation that fails behind the registration of its character device cleans up through
-- `ebdr_minor_cleanup`, whose state `EBDR_BLKDEV_DESTROY` is the loop over all devices.
use greko.Base.{
  ℕ, zero, suc, ◌+◌, ◌-◌, ◌≤◌, ◌<◌, ◌≡◌, Bool, true, false, ◌&&◌, none, some, arith, sym, ◌∙◌, inl,
  inr, ==_cases,
}
use mathlib.Core.Path.{subst}
use greko.Base.Int.{pos}
use greko.Base.Loops.{for_range}
use greko.Kernel.Device.{
  Kernel, Device, Ioctl, Answers, blkdev_destroy, state_blkdev_destroy, state_dev_create,
  state_blkdev_create, state_attach, blkdev_create, attach_blkdev, device_create, init_bmap,
}
use greko.Kernel.Device.Control.{returned, has_no_bdev, create, minor_cleanup, free_vmalloc_area}
use greko.Kernel.Device.Control.Creation.{created-failed, create-created, reserved, reserved-minor}
use greko.Kernel.Device.Control.Invariant.{state_blkdev_create-IsSame}

-- The device is detached, and its disk is gone.
abbrev pub Gone : Device → Type 0
Gone d = (d.ldev ≡ false) × (d.vdisk ≡ false)

blkdev_destroy-Gone : (i : ℕ) (k : Kernel) → Gone ((blkdev_destroy i k).device i)
unfolding blkdev_destroy
blkdev_destroy-Gone i k = (ground arith, ground arith)

blkdev_destroy-keeps_Gone :
    (i j : ℕ) (k : Kernel) → Gone (k.device j) → Gone ((blkdev_destroy i k).device j)
unfolding blkdev_destroy
blkdev_destroy-keeps_Gone i j k (g, h) = (ground arith, ground arith)

destroy_loop-keeps_Gone :
    (n i j : ℕ) (k : Kernel) → Gone (k.device j) → Gone ((for_range n i blkdev_destroy k).device j)
unfolding for_range
destroy_loop-keeps_Gone zero i j k g = g
destroy_loop-keeps_Gone (suc n) i j k g =
    destroy_loop-keeps_Gone n (suc i) j (blkdev_destroy i k) (blkdev_destroy-keeps_Gone i j k g)

destroy_loop-Gone :
    (n i j : ℕ) (k : Kernel) → i ≤ j → j < i + n → Gone ((for_range n i blkdev_destroy k).device j)
unfolding for_range
destroy_loop-Gone zero i j k lo hi = ground arith
destroy_loop-Gone (suc n) i j k lo hi = elim (==_cases i j) [
  | inl same ↦
      destroy_loop-keeps_Gone n (suc i) j (blkdev_destroy i k)
        (subst (λ j. Gone ((blkdev_destroy i k).device j)) same (blkdev_destroy-Gone i k))
  | inr other ↦ destroy_loop-Gone n (suc i) j (blkdev_destroy i k) (omega arith) (omega arith)
]

minor_cleanup-device :
    (i j : ℕ) (k : Kernel) → (minor_cleanup i k).device j ≡ (state_blkdev_destroy k).device j
unfolding minor_cleanup free_vmalloc_area
minor_cleanup-device i j k = ground arith

minor_cleanup-Gone :
    (i j : ℕ) (k : Kernel) → 1 ≤ j → j < k.minor → Gone ((minor_cleanup i k).device j)
unfolding state_blkdev_destroy
minor_cleanup-Gone i j k lo hi =
    subst Gone (sym (minor_cleanup-device i j k))
      (destroy_loop-Gone (k.minor - 1) 1 j k lo (omega arith))

-- Whether Linux gives the device its queue, its disk and its backing device.
abbrev pub gives_device : Answers → Bool
gives_device a =
    a.blk_alloc_queue && a.alloc_disk && elim a.blkdev_get_by_path [ none ↦ false | some _ ↦ true ]

state_attach-gives :
    (a : Answers) (k : Kernel)
    → (state_attach a k).0 ≡ elim a.blkdev_get_by_path [ none ↦ false | some _ ↦ true ]
unfolding state_attach attach_blkdev
state_attach-gives a k = ground arith

pub state_dev_create-gives : (a : Answers) (k : Kernel) → (state_dev_create a k).0 ≡ gives_device a
unfolding state_dev_create state_blkdev_create blkdev_create
state_dev_create-gives a k = grind (arith, state_attach-gives a)

device_create-minor : (a : Answers) (k : Kernel) (i : ℕ) → (device_create a i k).minor ≡ k.minor
unfolding device_create init_bmap
device_create-minor a k i = ground arith

state_dev_create-minor : (a : Answers) (k : Kernel) → (state_dev_create a k).1.minor ≡ k.minor
unfolding state_dev_create
state_dev_create-minor a k =
    let k' = device_create a k.minor k in
    (state_blkdev_create-IsSame a k').minor ∙ device_create-minor a k k.minor

pub has_bdev : (a : Answers) → a.bdget ≡ true → has_no_bdev a ≡ false
has_bdev a e = ground arith

-- While there is room for one more of MAX_MINOR devices: a creation that gets its control block,
-- its area and its class, but not its queue, its disk or its backing device, where `bdget` would
-- give its object, fails, and leaves every device created before detached and without its disk.
pub create-failure :
    (a : Answers) (io : Ioctl) (k : Kernel) (m : ℕ)
    → k.minor < 64
    → a.bdget ≡ true
    → a.copied ≡ true
    → a.vmalloc_user ≡ some m
    → a.class_create ≡ true
    → gives_device a ≡ false
    → (k' : Kernel) × (create a io k ≡ returned (pos 2) none k')
      × ((j : ℕ) → 1 ≤ j → j < k.minor → (k'.device j).ldev ≡ false × (k'.device j).vdisk ≡ false)
create-failure a io k m lt has c e f g =
    let r = state_dev_create a (reserved k io a.vmalloc_user) in
    let same =
      state_dev_create-minor a (reserved k io a.vmalloc_user)
      ∙ reserved-minor k io a.vmalloc_user in
    (
      minor_cleanup k.minor r.1,
      create-created a io k m lt (has_bdev a has) c e f
          ∙ created-failed r k.minor (state_dev_create-gives a (reserved k io a.vmalloc_user) ∙ g),
      λ j lo hi. minor_cleanup-Gone k.minor j r.1 lo (omega (arith, same)),
    )

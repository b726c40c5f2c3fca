-- ===== src/Kernel/Device/Control/Success.antt =====
-- `EBDRCTL_DEV_CREATE` when Linux grants what it asks for.
use greko.Base.{ℕ, suc, ◌<◌, ◌≡◌, ap, ◌∙◌, true, none, some, arith}
use mathlib.Core.Path.{subst}
use greko.Base.Int.{pos}
use greko.Kernel.Device.{Kernel, Ioctl, Answers, state_dev_create}
use greko.Kernel.Device.Control.{Command, returned, create, ctl_ioctl}
use greko.Kernel.Device.Control.Invariant.{IsConsistent}
use greko.Kernel.Device.Control.Creation.{
  reserved, reserved-minor, reserved-next, reserved-IsConsistent, create-created, created-finished,
  finished, finished-bitmap, finish_create-finished, created-area, created-finished-IsConsistent,
  state_dev_create-Ready,
}
use greko.Kernel.Device.Control.Failures.{gives_device, has_bdev, state_dev_create-gives}

-- In consistent tables with room for one more of MAX_MINOR devices, a creation that gets its
-- control block, its area, its class, the memory of its bitmap, its device and its block device
-- returns 0; the minor number then is the next one, and the device of the old one has the bitmap
-- that was allocated.
pub create-success :
    (a : Answers) (io : Ioctl) (k : Kernel) (m : ℕ)
    → k.minor < 64
    → a.bdget ≡ true
    → IsConsistent k
    → a.copied ≡ true
    → a.vmalloc_user ≡ some m
    → a.class_create ≡ true
    → a.kzalloc ≡ true
    → gives_device a ≡ true
    → (k' : Kernel) × (create a io k ≡ returned (pos 0) none k')
      × (k'.minor ≡ suc k.minor)
      × ((k'.device k.minor).bitmap ≡ some k.next_bitmap)
create-success a io k m lt has v c e f z g =
    let k0 = reserved k io a.vmalloc_user in
    let r = state_dev_create a k0 in
    let (w, ready, same) =
      state_dev_create-Ready a k0 z (reserved-IsConsistent k io a.vmalloc_user v) in
    let at = same ∙ reserved-minor k io a.vmalloc_user in
    let p = k0.next_bitmap in
    let (next, bitmap) = finished-bitmap r.1 p ready.0 in
    (
      finished r.1 p,
      create-created a io k m lt (has_bdev a has) c e f
          ∙ created-finished r k.minor (state_dev_create-gives a k0 ∙ g)
          ∙ finish_create-finished r.1 p ready.0,
      next ∙ ap suc at,
      subst (λ i. ((finished r.1 p).device i).bitmap ≡ some p) at bitmap
          ∙ ap some (reserved-next k io a.vmalloc_user),
    )

-- Its area is the one that was granted, and the tables stay consistent.
pub ctl_ioctl-granted :
    (a : Answers) (io : Ioctl) (k : Kernel) (m : ℕ)
    → k.minor < 64
    → a.bdget ≡ true
    → IsConsistent k
    → a.copied ≡ true
    → a.vmalloc_user ≡ some m
    → a.class_create ≡ true
    → a.kzalloc ≡ true
    → gives_device a ≡ true
    → (k' : Kernel) × (ctl_ioctl Command.dev_create a io k ≡ returned (pos 0) none k')
      × (k'.minor ≡ suc k.minor)
      × ((p : ℕ) × ((k'.device k.minor).bitmap ≡ some p))
      × (k'.vmalloc_area k.minor ≡ some m)
      × IsConsistent k'
unfolding ctl_ioctl
ctl_ioctl-granted a io k m lt has v c e f z g =
    let k0 = reserved k io a.vmalloc_user in
    let r = state_dev_create a k0 in
    let p = k0.next_bitmap in
    let v0 = reserved-IsConsistent k io a.vmalloc_user v in
    let (w, ready, same) = state_dev_create-Ready a k0 z v0 in
    let at = same ∙ reserved-minor k io a.vmalloc_user in
    let (next, bitmap) = finished-bitmap r.1 p ready.0 in
    (
      finished r.1 p,
      create-created a io k m lt (has_bdev a has) c e f
          ∙ created-finished r k.minor (state_dev_create-gives a k0 ∙ g)
          ∙ finish_create-finished r.1 p ready.0,
      next ∙ ap suc at,
      (p, subst (λ i. ((finished r.1 p).device i).bitmap ≡ some p) at bitmap),
      created-area a io k a.vmalloc_user p z ∙ e,
      created-finished-IsConsistent a k0 z (omega (arith, lt, reserved-minor k io a.vmalloc_user))
          v0,
    )

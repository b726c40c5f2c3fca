-- ===== src/Kernel/Device/Control/Reachable.antt =====
-- Sequences of requests to the control device, from the loading of the module on.
use greko.Base.{ℕ, ◌≡◌, refl, true, Option, none}
use greko.Base.Int.{ℤ}
use greko.Kernel.Device.{Kernel, Ioctl, Answers}
use greko.Kernel.Device.Control.{Command, returned, create, ctl_ioctl}

-- Module load: `minor` is 1, and no device has a bitmap.
pub record IsLoaded (k : Kernel) : Type 0 where
  pub minor : k.minor ≡ 1
  pub bitmaps : (i : ℕ) → (k.device i).bitmap ≡ none

-- What requests lead to, none of which oopses; every creation gets the memory of its bitmap object.
pub data Reachable (k : Kernel) : Kernel → Type 0 where
  start : Reachable k k
  request :
      {k' k'' : Kernel} (c : Command) (a : Answers) (io : Ioctl) (v : ℤ) (out : Option ℕ)
      → Reachable k k'
      → a.kzalloc ≡ true
      → ctl_ioctl c a io k' ≡ returned v out k''
      → Reachable k k''

pub ctl_ioctl-create :
    (a : Answers) (io : Ioctl) (k : Kernel) → ctl_ioctl Command.dev_create a io k ≡ create a io k
unfolding ctl_ioctl
ctl_ioctl-create a io k = refl

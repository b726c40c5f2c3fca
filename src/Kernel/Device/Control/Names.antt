-- ===== src/Kernel/Device/Control/Names.antt =====
-- The search of a device by its name, `EBDRCTL_BLKDEV_SEARCH`.
use greko.Base.{
  ℕ, zero, suc, ◌+◌, ◌≤◌, ◌<◌, ◌≡◌, ◌↔◌, refl, Bool, true, false, ◌||◌, some, List, if◌then◌else◌,
  arith, inl, inr, Bool-cases, ==_cases, ◌∙◌, ap,
}
use mathlib.Core.Path.{subst}
use greko.Base.Int.{pos}
use greko.Kernel.Device.{Kernel, Device, Ioctl, Answers}
use greko.Kernel.Device.Control.{
  Command, returned, same_bytes, any_device, search_device, ctl_ioctl, max_ebdr_devices,
}
use greko.Kernel.Device.Control.Invariant.{IsConsistent}

any_device-some :
    (device : ℕ → Device) (name : List ℕ) (n i j : ℕ)
    → i ≤ j
    → j < i + n
    → same_bytes 20 (device j).disk_name name ≡ true
    → any_device device name n i ≡ true
unfolding any_device
any_device-some device name zero i j lo hi e = ground arith
any_device-some device name (suc n) i j lo hi e = elim (==_cases i j) [
  | inl same ↦
      ap (λ t. t || any_device device name n (suc i))
        (ap (λ i. same_bytes 20 (device i).disk_name name) same ∙ e)
  | inr other ↦
      (let rest = any_device-some device name n (suc i) j (omega arith) (omega arith) e in
        elim (Bool-cases (same_bytes 20 (device i).disk_name name)) [
          | inl s ↦ rw s refl
          | inr s ↦ rw s rest
        ])
]

any_device-found :
    (device : ℕ → Device) (name : List ℕ) (n i : ℕ)
    → any_device device name n i ≡ true
    → (j : ℕ) × (i ≤ j) × (j < i + n) × (same_bytes 20 (device j).disk_name name ≡ true)
unfolding any_device
any_device-found device name zero i e = ground arith
any_device-found device name (suc n) i e =
    elim (Bool-cases (same_bytes 20 (device i).disk_name name)) [
      | inl s ↦ (i, omega arith, omega arith, s)
      | inr s ↦
          (let (j, lo, hi, f) =
              any_device-found device name n (suc i)
                (subst (λ t. (t || any_device device name n (suc i)) ≡ true) s e) in
            (j, omega arith, omega arith, f))
    ]

any_device_iff :
    (device : ℕ → Device) (name : List ℕ) (n : ℕ)
    → (any_device device name n 0 ≡ true)
      ↔ ((j : ℕ) × (j < n) × (same_bytes 20 (device j).disk_name name ≡ true))
any_device_iff device name n = (
  (λ e. let (j, lo, hi, f) = any_device-found device name n 0 e in (j, omega arith, f)),
  (λ (j, hi, f). any_device-some device name n 0 j (omega arith) (omega arith) f),
)

abbrev answer : Bool → ℕ
answer b = if b then 1 else 0

answer_iff : (b : Bool) (P : Type 0) → ((b ≡ true) ↔ P) → ((answer b ≡ 1) ↔ P)
answer_iff true P (f, g) = ((λ e. f refl), (λ p. refl))
answer_iff false P (f, g) = ((λ e. f (ground arith)), (λ p. (let e = g p in ground arith)))

-- A search that gets its control block returns 0 and answers 1 if and only if one of the devices 0
-- to 9 has a name that agrees in the first 20 bytes with the one it looks for.
pub search_device-finds :
    (a : Answers) (io : Ioctl) (k : Kernel)
    → a.copied ≡ true
    → (found : ℕ) × (k' : Kernel) × (search_device a io k ≡ returned (pos 0) (some found) k')
      × ((found ≡ 1)
          ↔ ((j : ℕ) × (j < 10) × (same_bytes 20 (k.device j).disk_name io.src_disk ≡ true)))
unfolding search_device
search_device-finds a io k c =
    let b = any_device k.device io.src_disk 10 0 in
    (
      answer b,
      record k { ioctl_obj = io },
      rw c refl,
      answer_iff b _ (any_device_iff k.device io.src_disk 10),
    )

-- A name that no device has.
pub search-misses :
    (a : Answers) (io : Ioctl) (k : Kernel)
    → a.copied ≡ true
    → any_device k.device io.src_disk max_ebdr_devices 0 ≡ false
    → ctl_ioctl Command.blkdev_search a io k
      ≡ returned (pos 0) (some 0) (record k { ioctl_obj = io })
unfolding ctl_ioctl search_device
search-misses a io k c e = rw (c, e) refl

-- A request that is recorded concerns no device.
pub requested-IsConsistent :
    (io : Ioctl) (k : Kernel) → IsConsistent k → IsConsistent (record k { ioctl_obj = io })
requested-IsConsistent io k v = record {
  fresh = v.fresh;
  owned = v.owned;
  placed = v.placed;
  live = v.live;
  last = v.last;
  bounded = v.bounded;
}

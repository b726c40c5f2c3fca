-- ===== src/Kernel/Device/Control/Outcomes.antt =====
-- How `EBDRCTL_DEV_CREATE` of kernel/atdr_linux/atdr_main.c ends, on each of its branches.
use greko.Base.{
  ◌<◌, ◌≡◌, ◌≢◌, ltb, Option-cases, true, false, none, arith, sym, ◌∙◌, inl, inr, Bool-cases, ◌⊎◌,
}
use mathlib.Core.Path.{subst}
use Prim.{tt}
use greko.Base.Int.{pos, negsuc}
use greko.Kernel.Device.{Kernel, Ioctl, Answers, state_dev_create}
use greko.Kernel.Device.Control.{oops, has_no_bdev, returned, create}
use greko.Kernel.Device.Control.Invariant.{IsConsistent, After, Answered-After, Answered-returned}
use greko.Kernel.Device.Control.Creation.{
  reserved, reserved-minor, reserved-IsConsistent, created, created-IsConsistent, create-created,
  state_dev_create-Ready,
}

-- The branches of a creation.
create-branches :
    (a : Answers) (io : Ioctl) (k : Kernel)
    → let k' = reserved k io a.vmalloc_user in
      (create a io k ≡ oops)
      ⊎ ((create a io k ≡ returned (negsuc 0) none k)
          ⊎ ((create a io k ≡ returned (pos 2) none k')
              ⊎ ((create a io k ≡ created (state_dev_create a k') k.minor) × (k.minor < 64))))
unfolding create created reserved
create-branches a io k = ground arith

-- A creation, of which the allocation of the bitmap's object succeeds, keeps the tables consistent
-- if it returns, whether it succeeds or fails.
pub create-IsConsistent :
    (a : Answers) (io : Ioctl) (k : Kernel)
    → a.kzalloc ≡ true
    → IsConsistent k
    → After IsConsistent (create a io k)
create-IsConsistent a io k z v =
    let k' = reserved k io a.vmalloc_user in
    let v' = reserved-IsConsistent k io a.vmalloc_user v in
    elim (create-branches a io k) [
      | inl e ↦ subst (After IsConsistent) (sym e) tt
      | inr rest ↦ elim rest [
        | inl e ↦ subst (After IsConsistent) (sym e) v
        | inr more ↦ elim more [
          | inl e ↦ subst (After IsConsistent) (sym e) v'
          | inr (e, lt) ↦
              let (w, r, m) = state_dev_create-Ready a k' z v' in
              subst (After IsConsistent) (sym e) (
                Answered-After IsConsistent _ (
                  created-IsConsistent (state_dev_create a k') k.minor k'.next_bitmap lt w r
                    (m ∙ reserved-minor k io a.vmalloc_user)))
        ]
      ]
    ]

-- With room in the arrays and a block device, it returns.
pub create-returns :
    (a : Answers) (io : Ioctl) (k : Kernel)
    → a.kzalloc ≡ true
    → k.minor < 64
    → has_no_bdev a ≡ false
    → IsConsistent k
    → create a io k ≢ oops
unfolding create reserved
create-returns a io k z lt has v =
    let k' = reserved k io a.vmalloc_user in
    let (w, r, m) = state_dev_create-Ready a k' z (reserved-IsConsistent k io a.vmalloc_user v) in
    let back = Answered-returned IsConsistent _ (
      created-IsConsistent (state_dev_create a k') k.minor k'.next_bitmap lt w r
        (m ∙ reserved-minor k io a.vmalloc_user)) in
    let there : ltb k.minor 64 ≡ true = ground arith in
    elim (Bool-cases a.copied) [
      | inr c ↦ rw c (ground arith)
      | inl c ↦ elim (Option-cases a.vmalloc_user) [
        | inl e ↦ rw (c, there, e) (λ x. ground arith)
        | inr (area, e) ↦ elim (Bool-cases a.class_create) [
          | inr f ↦ rw (c, there, e, f) (λ x. ground arith)
          | inl f ↦ λ x. back (sym (create-created a io k area lt has c e f) ∙ x)
        ]
      ]
    ]

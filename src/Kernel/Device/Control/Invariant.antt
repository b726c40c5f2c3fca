-- ===== src/Kernel/Device/Control/Invariant.antt =====
-- The invariant of the tables of kernel/atdr_linux/atdr_main.c, and what it does not look at.
use greko.Base.{
  ℕ, zero, suc, ◌-◌, ◌≤◌, ◌<◌, ◌≡◌, ◌≢◌, refl, some, arith, sym, ◌∙◌, inl, inr, Bool-cases,
}
use mathlib.Core.Path.{subst, subst₃}
use greko.Base.Loops.{for_range}
use greko.Kernel.Device.{
  Kernel, Answers, blkdev_create, attach_blkdev, blkdev_destroy, state_attach, state_blkdev_create,
  state_blkdev_destroy,
}
use greko.Kernel.Device.Control.{Outcome, oops, returned}
use greko.Kernel.Device.Control.Areas.{Placed}

pub record IsConsistent (k : Kernel) : Type 0 where
  -- Every bitmap that a device points to has been allocated, and belongs to that device alone.
  pub fresh : (i p : ℕ) → (k.device i).bitmap ≡ some p → p < k.next_bitmap
  pub owned : (i j p : ℕ) → (k.device i).bitmap ≡ some p → (k.device j).bitmap ≡ some p → i ≡ j
  -- The bitmap of a created device lies in the device's area.
  pub placed :
      (i p : ℕ)
      → 1 ≤ i
      → i < k.minor
      → (k.device i).bitmap ≡ some p
      → Placed (k.vmalloc_area i) (k.vmalloc_area_sz i) (k.bitmaps p)
  -- Every created device has a bitmap, and then the last one is known.
  pub live : (i : ℕ) → 1 ≤ i → i < k.minor → (p : ℕ) × ((k.device i).bitmap ≡ some p)
  pub last : 1 < k.minor → (p : ℕ) × (k.bitmap ≡ some p)
  -- Every created device has its place in the arrays.
  pub bounded : k.minor ≤ 64

-- What the invariant looks at is unchanged.
pub record IsSame (k k' : Kernel) : Type 0 where
  pub minor : k'.minor ≡ k.minor
  pub pointers : (i : ℕ) → (k'.device i).bitmap ≡ (k.device i).bitmap
  pub bitmaps : k'.bitmaps ≡ k.bitmaps
  pub last : k'.bitmap ≡ k.bitmap
  pub next : k'.next_bitmap ≡ k.next_bitmap
  pub area : k'.vmalloc_area ≡ k.vmalloc_area
  pub size : k'.vmalloc_area_sz ≡ k.vmalloc_area_sz

pub IsSame-refl : (k : Kernel) → IsSame k k
IsSame-refl k = record {
  minor = refl;
  pointers = λ i. refl;
  bitmaps = refl;
  last = refl;
  next = refl;
  area = refl;
  size = refl;
}

IsSame-trans : {k k' k'' : Kernel} → IsSame k k' → IsSame k' k'' → IsSame k k''
IsSame-trans v w = record {
  minor = w.minor ∙ v.minor;
  pointers = λ i. w.pointers i ∙ v.pointers i;
  bitmaps = w.bitmaps ∙ v.bitmaps;
  last = w.last ∙ v.last;
  next = w.next ∙ v.next;
  area = w.area ∙ v.area;
  size = w.size ∙ v.size;
}

blkdev_destroy-IsSame : (i : ℕ) (k : Kernel) → IsSame k (blkdev_destroy i k)
unfolding blkdev_destroy
blkdev_destroy-IsSame i k = record {
  minor = ground arith;
  pointers = λ j. ground arith;
  bitmaps = ground arith;
  last = ground arith;
  next = ground arith;
  area = ground arith;
  size = ground arith;
}

attach_blkdev-IsSame : (a : Answers) (i : ℕ) (k : Kernel) → IsSame k (attach_blkdev a i k).1
unfolding attach_blkdev
attach_blkdev-IsSame a i k = record {
  minor = ground arith;
  pointers = λ j. ground arith;
  bitmaps = ground arith;
  last = ground arith;
  next = ground arith;
  area = ground arith;
  size = ground arith;
}

blkdev_create-IsSame : (a : Answers) (i : ℕ) (k : Kernel) → IsSame k (blkdev_create a i k).1
unfolding blkdev_create
blkdev_create-IsSame a i k = record {
  minor = ground arith;
  pointers = λ j. ground arith;
  bitmaps = ground arith;
  last = ground arith;
  next = ground arith;
  area = ground arith;
  size = ground arith;
}

destroy_loop-IsSame : (n i : ℕ) (k : Kernel) → IsSame k (for_range n i blkdev_destroy k)
unfolding for_range
destroy_loop-IsSame zero i k = IsSame-refl k
destroy_loop-IsSame (suc n) i k =
    IsSame-trans (blkdev_destroy-IsSame i k) (destroy_loop-IsSame n (suc i) (blkdev_destroy i k))

pub state_blkdev_destroy-IsSame : (k : Kernel) → IsSame k (state_blkdev_destroy k)
unfolding state_blkdev_destroy
state_blkdev_destroy-IsSame k = destroy_loop-IsSame (k.minor - 1) 1 k

state_attach-IsSame : (a : Answers) (k : Kernel) → IsSame k (state_attach a k).1
unfolding state_attach
state_attach-IsSame a k =
    let (ok, k') = attach_blkdev a k.minor k in
    let same = attach_blkdev-IsSame a k.minor k in
    elim (Bool-cases ok) [
      | inl e ↦ rw e same
      | inr e ↦ rw e (IsSame-trans same (blkdev_destroy-IsSame k.minor k'))
    ]

pub state_blkdev_create-IsSame : (a : Answers) (k : Kernel) → IsSame k (state_blkdev_create a k).1
unfolding state_blkdev_create
state_blkdev_create-IsSame a k =
    let (ok, k') = blkdev_create a k.minor k in
    let same = blkdev_create-IsSame a k.minor k in
    elim (Bool-cases ok) [
      | inl e ↦ rw e (IsSame-trans same (state_attach-IsSame a k'))
      | inr e ↦ rw e same
    ]

pub same-IsConsistent : {k k' : Kernel} → IsSame k k' → IsConsistent k → IsConsistent k'
same-IsConsistent {k} {k'} s v = record {
  fresh = λ i p e. omega (arith, v.fresh i p (sym (s.pointers i) ∙ e), s.next);
  owned = λ i j p e f. v.owned i j p (sym (s.pointers i) ∙ e) (sym (s.pointers j) ∙ f);
  placed = λ i p lo hi e.
      let old = v.placed i p lo (omega (arith, s.minor)) (sym (s.pointers i) ∙ e) in
      subst₃ (λ bs ar sz. Placed (ar i) (sz i) (bs p)) (sym s.bitmaps) (sym s.area) (sym s.size)
        old;
  live = λ i lo hi. let (p, e) = v.live i lo (omega (arith, s.minor)) in (p, s.pointers i ∙ e);
  last = λ lo. let (p, e) = v.last (omega (arith, s.minor)) in (p, s.last ∙ e);
  bounded = omega (arith, v.bounded, s.minor);
}

-- What a request leaves, if it returns.
abbrev pub After : (Kernel → Type 0) → Outcome → Type 0
After P oops = Unit
After P (returned v out k) = P k

-- A request that does return, and what it leaves.
abbrev pub Answered : (Kernel → Type 0) → Outcome → Type 0
Answered P oops = ⊥
Answered P (returned v out k) = P k

pub Answered-After : (P : Kernel → Type 0) (o : Outcome) → Answered P o → After P o
Answered-After P oops h = elim h [ ]
Answered-After P (returned v out k) h = h

pub Answered-returned : (P : Kernel → Type 0) (o : Outcome) → Answered P o → o ≢ oops
Answered-returned P o h e = subst (Answered P) e h

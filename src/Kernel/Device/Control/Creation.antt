-- ===== src/Kernel/Device/Control/Creation.antt =====
-- `EBDRCTL_DEV_CREATE` of kernel/atdr_linux/atdr_main.c and the tables of the module.
use greko.Base.{
  ℕ, suc, ◌<◌, ◌≡◌, refl, ltb, Bool, true, false, Option, none, some, if◌then◌else◌, update,
  update_self, arith, ap, sym, ◌∙◌, inl, inr, ==_cases, ap₂,
}
use mathlib.Core.Path.{subst}
use greko.Base.Int.{pos}
use greko.Kernel.Bitmap.{BitmapUser}
use greko.Kernel.Device.{
  Kernel, Ioctl, Answers, address, device_create, init_bmap, state_dev_create, state_blkdev_destroy,
}
use greko.Kernel.Device.Control.{
  Outcome, has_no_bdev, returned, free_vmalloc_area, minor_cleanup, finish_create, create,
  b_allocated,
}
use greko.Kernel.Device.Control.Invariant.{
  IsConsistent, IsSame, same-IsConsistent, state_blkdev_create-IsSame, state_blkdev_destroy-IsSame,
  Answered,
}

-- What a created bitmap has that is not yet counted: it is that of `minor`, and lies in its area.
abbrev pub Ready : Kernel → ℕ → Type 0
Ready k p =
    ((k.device k.minor).bitmap ≡ some p)
    × ((k.bitmaps p).bitmap_area ≡ address (k.vmalloc_area k.minor))
    × (k.bitmap ≡ some p)

device_create-Ready :
    (a : Answers) (k : Kernel)
    → a.kzalloc ≡ true
    → IsConsistent k
    → IsConsistent (device_create a k.minor k)
      × Ready (device_create a k.minor k) k.next_bitmap
      × ((device_create a k.minor k).minor ≡ k.minor)
unfolding device_create init_bmap
device_create-Ready a k z v = rw z (
  record {
    fresh = λ i p e. grind (arith, v.fresh i p);
    owned = λ i j p e f. grind (arith, v.owned i j p, v.fresh i p, v.fresh j p);
    placed = λ i p lo hi e. grind (arith, v.placed i p, v.fresh i p);
    live = λ i lo hi.
        let (p, e) = v.live i lo hi in
        elim (==_cases k.minor i) [
          | inl same ↦ (k.next_bitmap, ground arith)
          | inr other ↦ (p, ground arith)
        ];
    last = λ lo. (k.next_bitmap, refl);
    bounded = v.bounded;
  },
  (ground arith, ground arith, refl),
  refl,
)

same-Ready : {k k' : Kernel} (p : ℕ) → IsSame k k' → Ready k p → Ready k' p
same-Ready {k} {k'} p s r = (
  ap (λ i. (k'.device i).bitmap) s.minor ∙ s.pointers k.minor ∙ r.0,
  ap (λ bs. (bs p).bitmap_area) s.bitmaps ∙ r.1 ∙ sym (ap₂ (λ ar i. address (ar i)) s.area s.minor),
  s.last ∙ r.2,
)

pub finished : Kernel → ℕ → Kernel
finished k p = record k {
  minor = suc k.minor;
  bitmaps =
      update k.bitmaps p
        (record (k.bitmaps p) { bmap_user = BitmapUser.kernel; bitmap_state = b_allocated });
  device = update k.device k.minor (record (k.device k.minor) { disk_name = k.ioctl_obj.src_disk });
}

pub finish_create-finished :
    (k : Kernel) (p : ℕ)
    → (k.device k.minor).bitmap ≡ some p
    → finish_create k ≡ returned (pos 0) none (finished k p)
unfolding finish_create finished
finish_create-finished k p e = ground arith

finished-IsConsistent :
    (k : Kernel) (p : ℕ) → k.minor < 64 → IsConsistent k → Ready k p → IsConsistent (finished k p)
unfolding finished
finished-IsConsistent k p lt v r = record {
  fresh = λ i q e. grind (arith, v.fresh i q);
  owned = λ i j q e f. grind (arith, v.owned i j q);
  placed = λ i q lo hi e. grind (arith, v.placed i q lo, v.owned i k.minor p);
  live = λ i lo hi. elim (==_cases k.minor i) [
    | inl same ↦ (p, let e = r.0 in ground arith)
    | inr other ↦ let (q, e) = v.live i lo (omega arith) in (q, ground arith)
  ];
  last = λ lo. (p, r.2);
  bounded = omega (arith, lt);
}

finish_create-IsConsistent :
    (k : Kernel) (p : ℕ)
    → k.minor < 64
    → IsConsistent k
    → Ready k p
    → Answered IsConsistent (finish_create k)
finish_create-IsConsistent k p lt v r =
    subst (Answered IsConsistent) (sym (finish_create-finished k p r.0))
      (finished-IsConsistent k p lt v r)

free_vmalloc_area-IsConsistent :
    (k : Kernel) → IsConsistent k → IsConsistent (free_vmalloc_area k.minor k)
unfolding free_vmalloc_area
free_vmalloc_area-IsConsistent k v = record {
  fresh = λ i p e. grind (arith, v.fresh i p);
  owned = λ i j p e f. grind (arith, v.owned i j p);
  placed = λ i p lo hi e. grind (arith, v.placed i p lo);
  live = λ i lo hi. let (p, e) = v.live i lo (ground arith) in (p, ground arith);
  last = λ lo. let (p, e) = v.last (ground arith) in (p, ground arith);
  bounded = (let b = v.bounded in ground arith);
}

minor_cleanup-IsConsistent : (k : Kernel) → IsConsistent k → IsConsistent (minor_cleanup k.minor k)
unfolding minor_cleanup
minor_cleanup-IsConsistent k v =
    let k' = state_blkdev_destroy k in
    let same = state_blkdev_destroy-IsSame k in
    let freed = free_vmalloc_area-IsConsistent k' (same-IsConsistent same v) in
    let freed' : IsConsistent (free_vmalloc_area k.minor k') =
      subst (λ i. IsConsistent (free_vmalloc_area i k')) same.minor freed in
    same-IsConsistent
      (record {
        minor = refl;
        pointers = λ i. refl;
        bitmaps = refl;
        last = refl;
        next = refl;
        area = refl;
        size = refl;
      })
      freed'

-- The tables after the area of the new device is recorded: no created device is concerned.
pub reserve-IsConsistent :
    (k : Kernel) (io : Ioctl) (area : Option ℕ)
    → IsConsistent k
    → IsConsistent (record k {
      ioctl_obj = io;
      vmalloc_area_sz = update k.vmalloc_area_sz k.minor io.u_bitmap_size;
      vmalloc_area = update k.vmalloc_area k.minor area;
    })
reserve-IsConsistent k io area v = record {
  fresh = v.fresh;
  owned = v.owned;
  placed = λ i p lo hi e. grind (arith, v.placed i p lo);
  live = v.live;
  last = v.last;
  bounded = v.bounded;
}

pub state_dev_create-Ready :
    (a : Answers) (k : Kernel)
    → a.kzalloc ≡ true
    → IsConsistent k
    → let k' = (state_dev_create a k).1 in
      IsConsistent k' × Ready k' k.next_bitmap × (k'.minor ≡ k.minor)
unfolding state_dev_create
state_dev_create-Ready a k z v =
    let (c, r, m) = device_create-Ready a k z v in
    let same = state_blkdev_create-IsSame a (device_create a k.minor k) in
    (same-IsConsistent same c, same-Ready k.next_bitmap same r, same.minor ∙ m)

-- The end of a creation, from the state that the state machine leaves.
unfoldable pub created : Bool × Kernel → ℕ → Outcome
created (ok, k') i = if ok then finish_create k' else returned (pos 2) none (minor_cleanup i k')

pub created-IsConsistent :
    (r : Bool × Kernel) (i p : ℕ)
    → i < 64
    → IsConsistent r.1
    → Ready r.1 p
    → r.1.minor ≡ i
    → Answered IsConsistent (created r i)
unfolding created
created-IsConsistent (true, k') i p lt c r m =
    finish_create-IsConsistent k' p (omega (arith, lt, m)) c r
created-IsConsistent (false, k') i p lt c r m =
    subst (λ i. IsConsistent (minor_cleanup i k')) m (minor_cleanup-IsConsistent k' c)

-- The tables when the area of the new device is recorded.
unfoldable pub reserved : Kernel → Ioctl → Option ℕ → Kernel
reserved k io area = record k {
  ioctl_obj = io;
  vmalloc_area_sz = update k.vmalloc_area_sz k.minor io.u_bitmap_size;
  vmalloc_area = update k.vmalloc_area k.minor area;
}

pub reserved-minor : (k : Kernel) (io : Ioctl) (m : Option ℕ) → (reserved k io m).minor ≡ k.minor
unfolding reserved
reserved-minor k io m = refl

pub reserved-IsConsistent :
    (k : Kernel) (io : Ioctl) (m : Option ℕ) → IsConsistent k → IsConsistent (reserved k io m)
unfolding reserved
reserved-IsConsistent k io m v = reserve-IsConsistent k io m v

pub create-created :
    (a : Answers) (io : Ioctl) (k : Kernel) (m : ℕ)
    → k.minor < 64
    → has_no_bdev a ≡ false
    → a.copied ≡ true
    → a.vmalloc_user ≡ some m
    → a.class_create ≡ true
    → create a io k ≡ created (state_dev_create a (reserved k io a.vmalloc_user)) k.minor
unfolding create created reserved
create-created a io k m lt has c e f =
    let there : ltb k.minor 64 ≡ true = ground arith in ground arith

pub created-failed :
    (r : Bool × Kernel) (i : ℕ)
    → r.0 ≡ false
    → created r i ≡ returned (pos 2) none (minor_cleanup i r.1)
unfolding created
created-failed (false, k') i e = refl
created-failed (true, k') i e = ground arith

pub created-finished : (r : Bool × Kernel) (i : ℕ) → r.0 ≡ true → created r i ≡ finish_create r.1
unfolding created
created-finished (true, k') i e = refl
created-finished (false, k') i e = ground arith

pub reserved-next :
    (k : Kernel) (io : Ioctl) (m : Option ℕ) → (reserved k io m).next_bitmap ≡ k.next_bitmap
unfolding reserved
reserved-next k io m = refl

-- The minor number that was used goes up, and its device keeps its bitmap.
pub finished-bitmap :
    (k : Kernel) (p : ℕ)
    → (k.device k.minor).bitmap ≡ some p
    → ((finished k p).minor ≡ suc k.minor) × (((finished k p).device k.minor).bitmap ≡ some p)
unfolding finished
finished-bitmap k p e = (refl, ground arith)

-- The area of the new device, which the rest of a creation leaves alone.
pub created-area :
    (a : Answers) (io : Ioctl) (k : Kernel) (area : Option ℕ) (p : ℕ)
    → a.kzalloc ≡ true
    → (finished (state_dev_create a (reserved k io area)).1 p).vmalloc_area k.minor ≡ area
unfolding finished reserved state_dev_create device_create init_bmap
created-area a io k area p z =
    let k0 = reserved k io area in
    let same = state_blkdev_create-IsSame a (device_create a k0.minor k0) in
    ap (λ f. f k.minor) same.area ∙ rw z (update_self k.vmalloc_area k.minor area)

pub created-finished-IsConsistent :
    (a : Answers) (k : Kernel)
    → a.kzalloc ≡ true
    → k.minor < 64
    → IsConsistent k
    → IsConsistent (finished (state_dev_create a k).1 k.next_bitmap)
created-finished-IsConsistent a k z lt v =
    let (w, ready, same) = state_dev_create-Ready a k z v in
    finished-IsConsistent (state_dev_create a k).1 k.next_bitmap (omega (arith, lt, same)) w ready

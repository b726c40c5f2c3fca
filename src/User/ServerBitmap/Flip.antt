-- ===== src/User/ServerBitmap/Flip.antt =====
-- How daemon and kernel change the halves of a bitmap area: the loading of a bitmap of a device that
-- the kernel module has created, and the clearing at the end of the replication.
use greko.Base.{
  ℕ, ◌+◌, ◌-◌, ◌*◌, ◌%◌, ◌≤◌, ◌<◌, ◌≡◌, refl, sym, ap, ap₂, ◌∙◌, true, false, ◌&&◌, Option, none,
  some, ltb, leb, if◌then◌else◌, arith, ◌⊎◌, update_self,
}
use greko.Memory.{Memory, unmark}
use greko.Kernel.Bitmap.{Bitmap, BitmapUser}
use greko.Kernel.Device.{Kernel, Answers}
use greko.Kernel.Device.Control.{flipped}
use greko.Kernel.Device.Control.Areas.{Placed, flipped-area}
use greko.User.Types.{ObjectState}
use greko.User.ServerBitmap.{
  Loading, Mapping, UserBitmap, copy_mmaped_bitmap, clear_active_bitmap, load_from_memory,
  bitmap_server_destroy, bitmap_server_setup, get_total_bits_set, UserBitmapState,
}
use greko.User.ServerBitmap.Counting.{number_set, number_set_same, get_total_bits_set-number_set}
use greko.User.ServerBitmap.Copies.{copy_mmaped_bitmap-bits, clear_active_bitmap-unmark}
use greko.User.ServerBitmap.Requests.{
  half_of, other_user, copied_and_flipped, asked, load_from_memory-flips,
}

-- The mapping of a device's area: `disk_source_mmap` maps both halves, one behind the other.
pub record IsMapped (k : Kernel) (i : ℕ) (d : Mapping) : Type 0 where
  pub area : k.vmalloc_area i ≡ some d.active_bitmap
  pub size : k.vmalloc_area_sz i ≡ d.bitmap_size
  pub backup : d.active_bitmap_backup ≡ d.active_bitmap + d.bitmap_size
  pub words : d.bitmap_size % 8 ≡ 0

pub Placed-half :
    (d : Mapping) (b : Bitmap)
    → d.active_bitmap_backup ≡ d.active_bitmap + d.bitmap_size
    → Placed (some d.active_bitmap) d.bitmap_size b
    → (half_of b.bmap_user d ≡ b.bitmap_area)
      × ((flipped b.bmap_user (some d.active_bitmap) d.bitmap_size b).bitmap_area
          ≡ half_of (other_user b.bmap_user) d)
Placed-half d b e h = (placed, turned)
  where
    placed : half_of b.bmap_user d ≡ b.bitmap_area
    placed = ground arith

    turned :
        (flipped b.bmap_user (some d.active_bitmap) d.bitmap_size b).bitmap_area
        ≡ half_of (other_user b.bmap_user) d
    turned = flipped-area (some d.active_bitmap) d.bitmap_size b h ∙ ground arith

pub bitmap_server_destroy-unmark :
    (d : Mapping) (b : UserBitmap) (m : Memory)
    → d.bitmap_size % 8 ≡ 0
    → bitmap_server_destroy b d m ≡ (
        let half = half_of (other_user b.bmap_user) d in
        unmark (8 * half) (8 * (half + d.bitmap_size)) m)
unfolding bitmap_server_destroy
bitmap_server_destroy-unmark d b m words =
    elim b.bmap_user
      as (λ u.
        (elim u [
          | BitmapUser.user ↦ clear_active_bitmap d.active_bitmap d.bitmap_size m
          | BitmapUser.kernel ↦ clear_active_bitmap d.active_bitmap_backup d.bitmap_size m
        ])
        ≡ unmark (8 * half_of (other_user u) d) (8 * (half_of (other_user u) d + d.bitmap_size))
            m) [
              | BitmapUser.user ↦ clear_active_bitmap-unmark d.active_bitmap d.bitmap_size m words
              | BitmapUser.kernel ↦
                  clear_active_bitmap-unmark d.active_bitmap_backup d.bitmap_size m words
            ]

pub other_twice : (u : BitmapUser) → other_user (other_user u) ≡ u
other_twice BitmapUser.kernel = refl
other_twice BitmapUser.user = refl

halves :
    (d : Mapping) (u : BitmapUser)
    → half_of (other_user u) d + half_of u d ≡ d.active_bitmap + d.active_bitmap_backup
halves d BitmapUser.kernel = omega arith
halves d BitmapUser.user = omega arith

pub half_apart :
    (d : Mapping) (u : BitmapUser) (dest : ℕ)
    → d.active_bitmap_backup ≡ d.active_bitmap + d.bitmap_size
    → (d.active_bitmap + 2 * d.bitmap_size ≤ dest) ⊎ (dest + d.bitmap_size ≤ d.active_bitmap)
    → (half_of u d + d.bitmap_size ≤ dest) ⊎ (dest + d.bitmap_size ≤ half_of u d)
half_apart d BitmapUser.kernel dest e apart = ground arith
half_apart d BitmapUser.user dest e apart = ground arith

pub copied_bit :
    (src dest size : ℕ) (m : Memory) (x : ℕ)
    → x < 8 * size
    → size % 8 ≡ 0
    → (src + size ≤ dest) ⊎ (dest + size ≤ src)
    → copy_mmaped_bitmap dest src size m (8 * dest + x) ≡ m (8 * src + x)
copied_bit src dest size m x hi words apart =
    copy_mmaped_bitmap-bits dest src size m (8 * dest + x) words apart
    ∙ ap₂ (λ b y. if b then m y else m (8 * dest + x)) (inside dest size x hi) (back src dest x)
  where
    inside :
        (dest size x : ℕ)
        → x < 8 * size
        → (leb (8 * dest) (8 * dest + x) && ltb (8 * dest + x) (8 * (dest + size))) ≡ true
    inside dest size x hi = ground arith

    back : (src dest x : ℕ) → 8 * src + (8 * dest + x - 8 * dest) ≡ 8 * src + x
    back src dest x = omega arith

-- The daemon's request for the bitmap of a device that has one in its mapped area of whole words,
-- apart from the daemon's own copy, outside recovery and reconnection, with control blocks that the
-- kernel can read, succeeds. The daemon has then a copy of every bit of
-- the half that the kernel wrote, the kernel writes the other half, and the end of the replication
-- clears the half that was copied, and nothing else.
pub load_from_memory-swaps :
    (d : Mapping) (server_pid p : ℕ) (a a' : Answers) (l0 : Loading)
    → a.copied ≡ true
    → a'.copied ≡ true
    → l0.conn ≡ ObjectState.in_use
    → (l0.kernel.device (server_pid + 1)).bitmap ≡ some p
    → IsMapped l0.kernel (server_pid + 1) d
    → Placed (some d.active_bitmap) d.bitmap_size (l0.kernel.bitmaps p)
    → (d.active_bitmap + 2 * d.bitmap_size ≤ l0.ubitmap.bitmap_area)
      ⊎ (l0.ubitmap.bitmap_area + d.bitmap_size ≤ d.active_bitmap)
    → let old = (l0.kernel.bitmaps p).bitmap_area in
      (l : Loading) × (load_from_memory false d server_pid a a' l0 ≡ some l)
      × ((x : ℕ)
          → x < 8 * d.bitmap_size
          → l.kernel.memory (8 * l.ubitmap.bitmap_area + x) ≡ l0.kernel.memory (8 * old + x))
      × ((l.kernel.bitmaps p).bitmap_area ≡ half_of l.ubitmap.bmap_user d)
      × ((l.kernel.bitmaps p).bitmap_area + old ≡ d.active_bitmap + d.active_bitmap_backup)
      × ((m : Memory)
          → bitmap_server_destroy l.ubitmap d m ≡ unmark (8 * old) (8 * (old + d.bitmap_size)) m)
unfolding load_from_memory
load_from_memory-swaps d server_pid p a a' l0 c c' free dev mapped placed apart =
    let b = l0.kernel.bitmaps p in
    let who = b.bmap_user in
    let l = copied_and_flipped (λ m. m) d p who (asked d server_pid l0) in
    let (here, there) = Placed-half d b mapped.backup placed in
    let moved : (l.kernel.bitmaps p).bitmap_area ≡ half_of (other_user who) d =
      ap (λ q. q.bitmap_area) (update_self l0.kernel.bitmaps p _)
      ∙ ap₂ (λ ar sz. (flipped who ar sz b).bitmap_area) mapped.area mapped.size
      ∙ there in
    (
      l,
      load_from_memory-flips (λ m. m) d server_pid p a a' l0 c c' free dev,
      (λ x hi.
          copied_bit (half_of who d) l0.ubitmap.bitmap_area d.bitmap_size l0.kernel.memory x hi
            mapped.words (half_apart d who l0.ubitmap.bitmap_area mapped.backup apart)
          ∙ ap (λ o. l0.kernel.memory (8 * o + x)) here),
      moved,
      ap₂ (λ x y. x + y) moved (sym here) ∙ halves d who,
      (λ m.
          bitmap_server_destroy-unmark d l.ubitmap m mapped.words
          ∙ ap (λ h. unmark (8 * h) (8 * (h + d.bitmap_size)) m)
              (ap (λ u. half_of u d) (other_twice who) ∙ here)),
    )

-- For a device that has a bitmap of 16384 bytes in its mapped area, apart from the daemon's own copy,
-- outside recovery and reconnection, with control blocks that the kernel can read, the setup succeeds,
-- and the number of dirty grains that the daemon announces is the number of bits set in the half that
-- the kernel wrote.
pub bitmap_server_setup-announces :
    (d : Mapping) (server_pid p : ℕ) (a a' : Answers) (l0 : Loading)
    → a.copied ≡ true
    → a'.copied ≡ true
    → l0.conn ≡ ObjectState.in_use
    → (l0.kernel.device (server_pid + 1)).bitmap ≡ some p
    → IsMapped l0.kernel (server_pid + 1) d
    → d.bitmap_size ≡ 16384
    → Placed (some d.active_bitmap) d.bitmap_size (l0.kernel.bitmaps p)
    → (d.active_bitmap + 2 * d.bitmap_size ≤ l0.ubitmap.bitmap_area)
      ⊎ (l0.ubitmap.bitmap_area + d.bitmap_size ≤ d.active_bitmap)
    → let old = (l0.kernel.bitmaps p).bitmap_area in
      (l : Loading) × (bitmap_server_setup false d server_pid a a' l0 ≡ some l)
      × (l.ubitmap.bitmap_state ≡ UserBitmapState.ready)
      × (l.ubitmap.total_bits_set ≡ number_set (λ i. l0.kernel.memory (8 * old + i)) (8 * 16384) 0)
unfolding bitmap_server_setup
bitmap_server_setup-announces d server_pid p a a' l0 c c' free dev mapped full placed apart =
    let (l, run, bits, half, sum, cleared) =
      load_from_memory-swaps d server_pid p a a' l0 c c' free dev mapped placed apart in
    let ready : Option Loading → Option Loading = λ o. elim o [
      | none ↦ none
      | some l ↦ some (record l {
        ubitmap = record l.ubitmap {
          total_bits_set = get_total_bits_set l.ubitmap.bitmap_area l.kernel.memory;
          bitmap_state = UserBitmapState.ready;
        };
      })
    ] in
    (
      record l {
        ubitmap = record l.ubitmap {
          total_bits_set = get_total_bits_set l.ubitmap.bitmap_area l.kernel.memory;
          bitmap_state = UserBitmapState.ready;
        };
      },
      ap ready run,
      refl,
      get_total_bits_set-number_set l.ubitmap.bitmap_area l.kernel.memory
          ∙ number_set_same _ _ (8 * 16384) 0 (λ k lo hi. bits k (omega (arith, full))),
    )

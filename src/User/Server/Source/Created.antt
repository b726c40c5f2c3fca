-- ===== src/User/Server/Source/Created.antt =====
-- A source disk that is created, from the request of atdr_daemon.c to the tables of the kernel
-- module.
use greko.Base.{
  ℕ, suc, ◌+◌, ◌<◌, ◌≡◌, ◌≢◌, refl, ap, ◌∙◌, Bool, true, false, some, List, ltb, if◌then◌else◌,
  arith, update, ◌∷◌,
}
use mathlib.Core.Path.{subst}
use greko.Kernel.Device.{Kernel, Ioctl, Answers}
use greko.Kernel.Device.Control.{any_device, max_ebdr_devices}
use greko.Kernel.Device.Control.Invariant.{IsConsistent}
use greko.Kernel.Device.Control.Failures.{gives_device}
use greko.Kernel.Device.Control.Names.{search-misses, requested-IsConsistent}
use greko.Kernel.Device.Control.Success.{ctl_ioctl-granted}
use greko.User.Types.{ObjectState}
use greko.User.ServerBitmap.{Mapping}
use greko.User.Server.{Server, SourceDisk, max_partners}
use greko.User.Server.Source.{
  Sources, Opening, dev_ctr_mmap, disk_source_mmap, disk_source_create, is_disk_created,
  create_source,
}

-- Linux grants a creation with an area.
pub record Granted (a : Answers) (m : ℕ) : Type 0 where
  pub copied : a.copied ≡ true
  pub vmalloc_user : a.vmalloc_user ≡ some m
  pub class_create : a.class_create ≡ true
  pub bdget : a.bdget ≡ true
  pub kzalloc : a.kzalloc ≡ true
  pub gives : gives_device a ≡ true

-- Everything is opened.
pub record Opens (o : Opening) : Type 0 where
  pub opened : o.opened ≡ true
  pub remapped : o.remapped ≡ true
  pub listening : o.listening ≡ true

-- The disk of the index `pid` after its creation in the state `t`.
pub record Created (pid m size : ℕ) (name : List ℕ) (t t1 : Sources) : Type 0 where
  pub consistent : IsConsistent t1.server.kernel
  pub aligned : t1.server.kernel.minor ≡ suc t1.ds_count
  pub count : t1.ds_count ≡ suc pid
  pub active : (t1.server.disk pid).mapping.active_bitmap ≡ m
  pub backup : (t1.server.disk pid).mapping.active_bitmap_backup ≡ m + size
  pub bitmap_size : (t1.server.disk pid).mapping.bitmap_size ≡ size
  pub obj_state : (t1.server.disk pid).obj_state ≡ ObjectState.in_use
  pub disk_name : t1.name pid ≡ name
  pub others : (j : ℕ) → j ≢ pid → t1.server.disk j ≡ t.server.disk j

-- The server's tables when the area `m` of the disk `pid` is mapped.
mapped : ℕ → ℕ → Server → Server
mapped pid m s =
    let d = s.disk pid in
    let mapping : Mapping = record d.mapping {
      active_bitmap = m;
      active_bitmap_backup = m + d.mapping.bitmap_size;
    } in
    record s { disk = update s.disk pid (record d { mapping = mapping }) }

disk_source_mmap-mapped :
    (o : Opening) (pid : ℕ) (s : Server) (m : ℕ)
    → Opens o
    → pid < 5
    → dev_ctr_mmap (suc pid) s.kernel ≡ some m
    → disk_source_mmap o pid s ≡ some (mapped pid m s)
unfolding disk_source_mmap mapped
disk_source_mmap-mapped o pid s m opens lt e =
    let few : ltb pid 5 ≡ true = ground arith in
    let opened = opens.opened in let remapped = opens.remapped in rw (few, opened, e, remapped) refl

-- The server's tables when the object of the disk is filled.
filled : Server → ℕ → Server
filled s pid =
    let d0 : SourceDisk = record (s.disk pid) { obj_state = ObjectState.in_use } in
    let size = s.ioctl_obj.u_bitmap_size in
    let d : SourceDisk = record d0 { mapping = record d0.mapping { bitmap_size = size } } in
    record s { disk = update s.disk pid d }

made : List ℕ → ℕ → Sources → Sources
made name m t = record t {
  server = mapped t.ds_count m (filled t.server t.ds_count);
  ds_count = suc t.ds_count;
  name = update t.name t.ds_count name;
  inserted = (t.ds_count, name, t.server.ioctl_obj.u_bitmap_size) ∷ t.inserted;
}

disk_source_create-made :
    (o : Opening) (name : List ℕ) (t : Sources) (m : ℕ)
    → Opens o
    → t.ds_count < 5
    → t.server.recovery_mode t.ds_count ≡ false
    → dev_ctr_mmap (suc t.ds_count) t.server.kernel ≡ some m
    → disk_source_create o name t.ds_count t ≡ some (made name m t)
unfolding disk_source_create made filled
disk_source_create-made o name t m opens lt fresh e =
    let some_left : ltb t.ds_count max_partners ≡ true = ground arith in
    let map = disk_source_mmap-mapped o t.ds_count (filled t.server t.ds_count) m opens lt e in
    rw (some_left, fresh, map) refl

made-Created :
    (name : List ℕ) (m : ℕ) (t : Sources)
    → IsConsistent t.server.kernel
    → t.server.kernel.minor ≡ suc (suc t.ds_count)
    → Created t.ds_count m t.server.ioctl_obj.u_bitmap_size name t (made name m t)
unfolding made mapped filled
made-Created name m t v e = record {
  consistent = v;
  aligned = e;
  count = refl;
  active = ground arith;
  backup = ground arith;
  bitmap_size = ground arith;
  obj_state = ground arith;
  disk_name = ground arith;
  others = λ j ne. ground arith;
}

-- The request `c` records what it asks for.
abbrev requested : List ℕ → ℕ → ℕ → Ioctl → Ioctl
requested name grain size io = record io {
  src_disk = name;
  u_grain_size = grain;
  u_bitmap_size = size;
}

dev_ctr_mmap-some :
    (i : ℕ) (k : Kernel) (m : ℕ)
    → ((p : ℕ) × ((k.device i).bitmap ≡ some p))
    → k.vmalloc_area i ≡ some m
    → dev_ctr_mmap i k ≡ some m
unfolding dev_ctr_mmap
dev_ctr_mmap-some i k m (p, e) f = rw (e, f) refl

is_disk_created-misses :
    (a : Answers) (s : Server)
    → a.copied ≡ true
    → any_device s.kernel.device s.ioctl_obj.src_disk max_ebdr_devices 0 ≡ false
    → is_disk_created a s
      ≡ some (false, record s { kernel = record s.kernel { ioctl_obj = s.ioctl_obj } })
unfolding is_disk_created
is_disk_created-misses a s c e = rw (search-misses a s.ioctl_obj s.kernel c e) refl

Created-once :
    {pid m size : ℕ} {name : List ℕ} {t t0 t1 : Sources}
    → ((j : ℕ) → t.server.disk j ≡ t0.server.disk j)
    → Created pid m size name t t1
    → Created pid m size name t0 (record t1 { once = true })
Created-once same c = record {
  consistent = c.consistent;
  aligned = c.aligned;
  count = c.count;
  active = c.active;
  backup = c.backup;
  bitmap_size = c.bitmap_size;
  obj_state = c.obj_state;
  disk_name = c.disk_name;
  others = λ j ne. c.others j ne ∙ same j;
}

heard_if : (once listening : Bool) → listening ≡ true → (if once then true else listening) ≡ true
heard_if once listening e = ground arith

-- When the daemon and the kernel module count alike, none of the kernel's devices that are searched has
-- the name that is asked for, the next index is below 5 and not in recovery, the kernel's tables are
-- consistent, and everything that is asked of Linux is granted, with an area at `m`, the request `c`
-- succeeds: the source disk of the next index is in use under that name, its bitmap is mapped at `m`
-- and the backup behind it, at the size that was asked for; the other disks are as before, the
-- daemon and the kernel module count alike again, and the kernel's tables are consistent.
pub create_source-Created :
    (a a' : Answers) (o : Opening) (name : List ℕ) (grain size m : ℕ) (t : Sources)
    → IsConsistent t.server.kernel
    → t.server.kernel.minor ≡ suc t.ds_count
    → t.ds_count < 5
    → t.server.recovery_mode t.ds_count ≡ false
    → any_device t.server.kernel.device name max_ebdr_devices 0 ≡ false
    → a.copied ≡ true
    → Granted a' m
    → Opens o
    → (t1 : Sources) × (create_source a a' o name grain size t ≡ some t1)
      × Created t.ds_count m size name t t1
unfolding create_source made
create_source-Created a a' o name grain size m t v at few fresh misses copied g opens =
    let io = requested name grain size t.server.ioctl_obj in
    let s = record t.server { ioctl_obj = io } in
    let k1 = record s.kernel { ioctl_obj = io } in
    let (k', e, next, bitmap, area, v') =
      ctl_ioctl-granted a' io k1 m (omega (arith, at, few)) g.bdget
        (requested-IsConsistent io s.kernel v) g.copied g.vmalloc_user g.class_create g.kzalloc
        g.gives in
    let t' = record t { server = record s { kernel = k' } } in
    let map = dev_ctr_mmap-some t.server.kernel.minor k' m bitmap area in
    let map' = subst (λ i. dev_ctr_mmap i k' ≡ some m) at map in
    let missed = is_disk_created-misses a s copied misses in
    let filled = disk_source_create-made o name t' m opens few fresh map' in
    let heard = heard_if t.once o.listening opens.listening in
    (
      record (made name m t') { once = true },
      rw (missed, e, filled) (rw heard refl),
      Created-once (λ j. refl) (made-Created name m t' v' (next ∙ ap suc at)),
    )

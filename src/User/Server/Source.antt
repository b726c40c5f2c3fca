-- ===== src/User/Server/Source.antt =====
-- The creation of a source disk by the server daemon: the request `c` of `parse_daemon_request`, of
-- user/atdr_linux/atdr_daemon.c, behind its scan, with is_disk_created there, disk_source_create
-- and disk_source_mmap of atdr_disk_source.c, and the kernel's ebdr_dev_ctr_mmap of
-- kernel/atdr_linux/atdr_memctl.c.
pub mod Created
use greko.Base.{
  ℕ, suc, ◌+◌, Bool, true, false, not, Option, none, some, List, ltb, ◌==◌, if◌then◌else◌, update,
  ◌>>=◌, ◌>>◌, require, ◌∷◌,
}
use greko.Base.Int.{ℤ, pos, negsuc}
use greko.Kernel.Device.{Kernel, Ioctl, Answers}
use greko.Kernel.Device.Control.{Command, Outcome, ctl_ioctl}
use greko.User.Types.{ObjectState}
use greko.User.ServerBitmap.{Mapping}
use greko.User.Server.{Server, SourceDisk, max_partners}

-- The server's tables with `ds_count`, the names of the source disks, and whether the listening
-- socket was set up. Insertions into the table `disk` are logged: the partner id, the name and the
-- size.
pub record Sources : Type 0 where
  pub server : Server
  pub ds_count : ℕ
  pub name : ℕ → List ℕ
  pub once : Bool
  pub inserted : List (ℕ × List ℕ × ℕ)

-- What is answered besides by the kernel module: whether `open` gives the control device's file,
-- whether the pages are mapped, and whether a socket is bound that listens.
pub record Opening : Type 0 where
  pub opened : Bool
  pub remapped : Bool
  pub listening : Bool

-- `ebdr_dev_ctr_mmap`: the area of the minor number; none is a NULL bitmap, or no area.
unfoldable pub dev_ctr_mmap : ℕ → Kernel → Option ℕ
dev_ctr_mmap minor k = do bitmap ← (k.device minor).bitmap; k.vmalloc_area minor

-- `disk_source_mmap`, whose local arrays have five entries; the device of a partner id has the next
-- minor number.
unfoldable pub disk_source_mmap : Opening → ℕ → Server → Option Server
disk_source_mmap o pid s = do
  require (ltb pid 5)
  require o.opened
  area ← dev_ctr_mmap (suc pid) s.kernel
  require o.remapped
  let d = s.disk pid
  let m : Mapping = record d.mapping {
    active_bitmap = area;
    active_bitmap_backup = area + d.mapping.bitmap_size;
  }
  some (record s { disk = update s.disk pid (record d { mapping = m }) })

-- `disk_source_create` for the object of an index.
unfoldable pub disk_source_create : Opening → List ℕ → ℕ → Sources → Option Sources
disk_source_create o name slot t =
    let s = t.server in
    let pid = t.ds_count in
    let d0 : SourceDisk = record (s.disk slot) { obj_state = ObjectState.in_use } in
    let size = s.ioctl_obj.u_bitmap_size in
    let fresh : SourceDisk = record d0 { mapping = record d0.mapping { bitmap_size = size } } in
    let d = if s.recovery_mode pid then d0 else fresh in
    let row = (pid, name, size) ∷ t.inserted in
    let made : Option Sources = (do
      s1 ← disk_source_mmap o pid (record s { disk = update s.disk slot d })
      some (record t {
        server = s1;
        ds_count = suc pid;
        name = update t.name slot name;
        inserted = if s.recovery_mode pid then t.inserted else row;
      })) in
    if ltb pid max_partners then made else some t

-- `prepare_and_send_ioctl_cmd` with what is copied back; none is a negative answer, or a stopped
-- kernel.
abbrev pub sent_ioctl : Outcome → Option (Option ℕ × Kernel)
sent_ioctl Outcome.oops = none
sent_ioctl (Outcome.returned (pos n) out k) = some (out, k)
sent_ioctl (Outcome.returned (negsuc n) out k) = none

abbrev pub is_answered : Option ℕ → Bool
is_answered none = false
is_answered (some n) = not (n == 0)

-- `is_disk_created`; the object of the request is put back.
unfoldable pub is_disk_created : Answers → Server → Option (Bool × Server)
is_disk_created a s = do
  (out, k) ← sent_ioctl (ctl_ioctl Command.blkdev_search a s.ioctl_obj s.kernel)
  some (is_answered out, record s { kernel = k })

-- The request `c`, with the answers to its two requests of the kernel module.
unfoldable pub create_source :
    Answers → Answers → Opening → List ℕ → ℕ → ℕ → Sources → Option Sources
create_source a a' o src_disk grain_size bitmap_size t = do
  let io : Ioctl = record t.server.ioctl_obj {
    src_disk = src_disk;
    u_grain_size = grain_size;
    u_bitmap_size = bitmap_size;
  }
  (found, s1) ← is_disk_created a (record t.server { ioctl_obj = io })
  let created : Option Sources = (do
    (out, k) ← sent_ioctl (ctl_ioctl Command.dev_create a' io s1.kernel)
    t1 ← disk_source_create o src_disk t.ds_count (record t { server = record s1 { kernel = k } })
    require (if t1.once then true else o.listening)
    some (record t1 { once = true }))
  if found then some (record t { server = s1 }) else created

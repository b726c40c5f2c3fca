-- ===== src/User/ServerBitmap/Requests.antt =====
-- The two requests of `server_bitmap_load_from_memory` to the kernel module, and what they lead to.
use greko.Base.{
  ℕ, ◌+◌, ◌≡◌, ap, ◌∙◌, Bool, true, false, ◌&&◌, not, Option, none, some, if◌then◌else◌,
}
use greko.Base.Int.{pos, negsuc}
use greko.Memory.{Memory}
use greko.Kernel.Bitmap.{BitmapUser}
use greko.Kernel.Device.{Kernel, Ioctl, Answers}
use greko.Kernel.Device.Control.{Command, Outcome, oops, returned, user_number}
use greko.Kernel.Device.Control.Areas.{after_flip, ctl_ioctl-flip, ctl_ioctl-user}
use greko.User.Types.{ObjectState}
use greko.User.ServerBitmap.{
  Loading, Mapping, copy_half, copy_and_flip_with, copy_again, send_ioctl_cmd, is_resumed,
  load_from_memory_with,
}

-- The half that a bitmap's user names.
abbrev pub half_of : BitmapUser → Mapping → ℕ
half_of BitmapUser.kernel d = d.active_bitmap
half_of BitmapUser.user d = d.active_bitmap_backup

abbrev pub other_user : BitmapUser → BitmapUser
other_user BitmapUser.kernel = BitmapUser.user
other_user BitmapUser.user = BitmapUser.kernel

-- What `prepare_and_send_ioctl_cmd` makes of an outcome.
abbrev answer_of : Outcome → Option (ℕ × Kernel)
answer_of o = elim o [
  | oops ↦ none
  | returned v out k' ↦ elim v [ pos n ↦ some (n, k') | negsuc n ↦ none ]
]

abbrev with_kernel : Loading → Option (ℕ × Kernel) → Option Loading
with_kernel l o = elim o [ none ↦ none | some (ret, k) ↦ some (record l { kernel = k }) ]

send_ioctl_cmd-get_user :
    (a : Answers) (io : Ioctl) (k : Kernel) (p : ℕ)
    → a.copied ≡ true
    → (k.device io.index).bitmap ≡ some p
    → send_ioctl_cmd Command.get_user a io k
      ≡ some (user_number (k.bitmaps p).bmap_user, record k { ioctl_obj = io })
unfolding send_ioctl_cmd
send_ioctl_cmd-get_user a io k p c dev = ap answer_of (ctl_ioctl-user a io k p c dev)

pub send_ioctl_cmd-flip :
    (a : Answers) (io : Ioctl) (k : Kernel) (p : ℕ)
    → a.copied ≡ true
    → (k.device io.index).bitmap ≡ some p
    → send_ioctl_cmd Command.flip_bitmap_area a io k ≡ some (0, after_flip io p k)
unfolding send_ioctl_cmd
send_ioctl_cmd-flip a io k p c dev = ap answer_of (ctl_ioctl-flip a io k p c dev)

-- The state after the half that `who` used is copied, and the halves have changed.
abbrev pub copied_and_flipped : (Memory → Memory) → Mapping → ℕ → BitmapUser → Loading → Loading
copied_and_flipped meanwhile d p who l0 =
    let l = copy_half (other_user who) (half_of who d) l0 in
    let k1 : Kernel = record l.kernel { memory = meanwhile l.kernel.memory } in
    record l { kernel = after_flip l.ioctl_obj p k1 }

copy_and_flip-flips :
    (meanwhile : Memory → Memory) (d : Mapping) (p : ℕ) (who : BitmapUser) (a : Answers)
    (l : Loading)
    → a.copied ≡ true
    → (l.kernel.device l.ioctl_obj.index).bitmap ≡ some p
    → copy_and_flip_with meanwhile d (user_number who) a l
      ≡ some (copied_and_flipped meanwhile d p who l)
unfolding copy_and_flip_with
copy_and_flip-flips meanwhile d p BitmapUser.kernel a l0 c dev =
    let l = copy_half BitmapUser.user d.active_bitmap l0 in
    ap (with_kernel l) (
      send_ioctl_cmd-flip a l.ioctl_obj (record l.kernel { memory = meanwhile l.kernel.memory }) p c
        dev)
copy_and_flip-flips meanwhile d p BitmapUser.user a l0 c dev =
    let l = copy_half BitmapUser.kernel d.active_bitmap_backup l0 in
    ap (with_kernel l) (
      send_ioctl_cmd-flip a l.ioctl_obj (record l.kernel { memory = meanwhile l.kernel.memory }) p c
        dev)

-- What the daemon starts from, once the kernel has told the user.
abbrev pub asked : Mapping → ℕ → Loading → Loading
asked d server_pid l0 = record l0 {
  ubitmap = record l0.ubitmap { bitmap_size = d.bitmap_size };
  ioctl_obj = record l0.ioctl_obj { index = server_pid + 1 };
  kernel = record l0.kernel { ioctl_obj = record l0.ioctl_obj { index = server_pid + 1 } };
}

pub load_from_memory-flips :
    (meanwhile : Memory → Memory) (d : Mapping) (server_pid p : ℕ) (a a' : Answers) (l0 : Loading)
    → a.copied ≡ true
    → a'.copied ≡ true
    → l0.conn ≡ ObjectState.in_use
    → (l0.kernel.device (server_pid + 1)).bitmap ≡ some p
    → load_from_memory_with meanwhile false d server_pid a a' l0
      ≡ some
          (copied_and_flipped meanwhile d p (l0.kernel.bitmaps p).bmap_user (asked d server_pid l0))
unfolding load_from_memory_with
load_from_memory-flips meanwhile d server_pid p a a' l0 c c' free dev =
    let io : Ioctl = record l0.ioctl_obj { index = server_pid + 1 } in
    let loading : Kernel → Loading = λ k. record l0 {
      ubitmap = record l0.ubitmap { bitmap_size = d.bitmap_size };
      ioctl_obj = io;
      kernel = k;
    } in
    let rest : Bool → Option (ℕ × Kernel) → Option Loading = λ resumed o. elim o [
      | none ↦ none
      | some (owner, k) ↦
          if not false && not resumed
          then copy_and_flip_with meanwhile d owner a' (loading k)
          else some (copy_again d (loading k))
    ] in
    ap (rest (is_resumed l0.conn)) (send_ioctl_cmd-get_user a io l0.kernel p c dev)
    ∙ ap
        (λ s.
          rest (is_resumed s) (
            some
              (user_number (l0.kernel.bitmaps p).bmap_user, record l0.kernel { ioctl_obj = io })))
        free
    ∙ copy_and_flip-flips meanwhile d p (l0.kernel.bitmaps p).bmap_user a' (asked d server_pid l0)
        c' dev

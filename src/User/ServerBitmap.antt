-- ===== src/User/ServerBitmap.antt =====
-- The server's copy of a device's bitmap: atdr_bitmap_server.c. The pointers that `mmap` gives are
-- addresses of the kernel's area, so its memory is that of `Kernel`; the block that `malloc` gives is
-- one more range of it.
pub mod Copies
pub mod Counting
pub mod Requests
pub mod Flip
pub mod Between
use greko.Base.{
  ℕ, zero, suc, ◌+◌, ◌-◌, ◌*◌, ◌/◌, ◌%◌, Bool, true, false, ◌&&◌, not, Option, none, some, ltb,
  ◌==◌, if◌then◌else◌,
}
use greko.Base.Int.{ℤ, pos, negsuc}
use greko.Base.Loops.{for_range}
use greko.Memory.{Memory, load, store}
use greko.Kernel.Bitmap.{BitmapUser}
use greko.Kernel.Device.{Kernel, Ioctl, Answers}
use greko.Kernel.Device.Control.{Command, Outcome, oops, returned, ctl_ioctl}
use greko.User.Types.{ObjectState, max_bits_len, user_bitmap_size}

-- enum ebdr_bitmap_state
pub data UserBitmapState : Type 0 where
  init updating ready completed freed : UserBitmapState

-- struct ebdr_user_bitmap, the fields that the server uses; `total_bits_set` is that of `uptill`.
pub record UserBitmap : Type 0 where
  pub bitmap_area : ℕ
  pub bitmap_size : ℕ
  pub bitmap_state : UserBitmapState
  pub bmap_user : BitmapUser
  pub total_bits_set : ℕ

-- The halves of the area of a source disk, as `disk_source_mmap` maps them.
pub record Mapping : Type 0 where
  pub active_bitmap : ℕ
  pub active_bitmap_backup : ℕ
  pub bitmap_size : ℕ

-- `ebdr_copy_mmaped_bitmap`
pub copy_mmaped_bitmap : ℕ → ℕ → ℕ → Memory → Memory
unfolding for_range
copy_mmaped_bitmap dest src nbytes m =
    for_range (nbytes / 8) 0 (λ i m. store 64 m (dest + 8 * i) (load 64 m (src + 8 * i))) m

-- `ebdr_clear_active_bitmap`
pub clear_active_bitmap : ℕ → ℕ → Memory → Memory
unfolding for_range
clear_active_bitmap dest nbytes m = for_range (nbytes / 8) 0 (λ i m. store 64 m (dest + 8 * i) 0) m

-- `ebdr_test_bit2`, on a pointer that is not NULL: the mask counts from the high end of the byte.
abbrev pub test_bit2 : ℕ → ℕ → Memory → Bool
test_bit2 num arg m = m (8 * (arg + num / 8) + (8 - 1 - num % 8))

-- `ebdr_check_bit_set`
pub check_bit_set : ℕ → ℕ → Memory → Bool
check_bit_set area bit_pos m =
    let pnum = bit_pos / 32768 in
    if ltb max_bits_len (pnum * 32768)
    then false
    else test_bit2 (bit_pos % 32768) (area + pnum * 32768 / 8) m

-- `bits_set++` for each of the `n` positions from `bit_pos` on.
pub count_bits : (ℕ → Bool) → ℕ → ℕ → ℕ → ℕ
count_bits set zero bit_pos bits_set = bits_set
count_bits set (suc n) bit_pos bits_set =
    count_bits set n (suc bit_pos) (if set bit_pos then suc bits_set else bits_set)

-- `get_total_bits_set`
pub get_total_bits_set : ℕ → Memory → ℕ
unfolding count_bits check_bit_set
get_total_bits_set area m = count_bits (λ i. check_bit_set area i m) max_bits_len 0 0

-- `bitmap_server_create`, with the block that `malloc` gives; none is `stop_work`.
unfoldable pub bitmap_server_create : Option ℕ → UserBitmap → Memory → Option (UserBitmap × Memory)
unfolding for_range
bitmap_server_create none b m = none
bitmap_server_create (some p) b m = some (
  record b {
    bitmap_area = p;
    bitmap_size = user_bitmap_size;
    bitmap_state = UserBitmapState.init;
    bmap_user = BitmapUser.kernel;
  },
  for_range user_bitmap_size 0 (λ i m. store 8 m (p + i) 0) m,
)

-- `prepare_and_send_ioctl_cmd`: none when the daemon does not go on, because the answer is negative
-- or the kernel stopped.
pub send_ioctl_cmd : Command → Answers → Ioctl → Kernel → Option (ℕ × Kernel)
send_ioctl_cmd cmd a io k = elim (ctl_ioctl cmd a io k) [
  | oops ↦ none
  | returned v out k' ↦ elim v [ pos n ↦ some (n, k') | negsuc n ↦ none ]
]

-- What `server_bitmap_load_from_memory` works on.
pub record Loading : Type 0 where
  pub ubitmap : UserBitmap
  pub conn : ObjectState
  pub ioctl_obj : Ioctl
  pub kernel : Kernel

-- One of the halves is copied, and its user recorded.
abbrev pub copy_half : BitmapUser → ℕ → Loading → Loading
copy_half owner half l = record l {
  ubitmap = record l.ubitmap { bmap_user = owner };
  ioctl_obj = record l.ioctl_obj {
    bmap_user = elim owner [ BitmapUser.kernel ↦ 0 | BitmapUser.user ↦ 1 ];
  };
  kernel = record l.kernel {
    memory = copy_mmaped_bitmap l.ubitmap.bitmap_area half l.ubitmap.bitmap_size l.kernel.memory;
  };
}

abbrev pub is_resumed : ObjectState → Bool
is_resumed ObjectState.resume = true
is_resumed _ = false

-- The half that the kernel writes is copied, and then the halves change: `owner` is what the kernel
-- said before.
pub copy_and_flip_with : (Memory → Memory) → Mapping → ℕ → Answers → Loading → Option Loading
unfolding copy_mmaped_bitmap send_ioctl_cmd
copy_and_flip_with meanwhile d owner a l0 =
    let l =
      if owner == 0
      then copy_half BitmapUser.user d.active_bitmap l0
      else copy_half BitmapUser.kernel d.active_bitmap_backup l0 in
    let k1 : Kernel = record l.kernel { memory = meanwhile l.kernel.memory } in
    elim (send_ioctl_cmd Command.flip_bitmap_area a l.ioctl_obj k1) [
      | none ↦ none
      | some (ret, k) ↦ some (record l { kernel = k })
    ]

-- After a reconnection or in recovery mode, the first half is copied if its first word is not 0, and
-- else the second.
pub copy_again : Mapping → Loading → Loading
unfolding copy_mmaped_bitmap
copy_again d l0 =
    let l : Loading = record l0 { conn = ObjectState.in_use } in
    if load 64 l.kernel.memory d.active_bitmap == 0
    then copy_half BitmapUser.kernel d.active_bitmap_backup l
    else copy_half BitmapUser.user d.active_bitmap l

-- `server_bitmap_load_from_memory`, with what the kernel's requests make of the memory between the copy
-- and the flip; `a` and `a'` are Linux's answers in the two requests.
pub load_from_memory_with :
    (Memory → Memory) → Bool → Mapping → ℕ → Answers → Answers → Loading → Option Loading
unfolding copy_and_flip_with copy_again send_ioctl_cmd
load_from_memory_with meanwhile recovery d server_pid a a' l0 =
    let io : Ioctl = record l0.ioctl_obj { index = server_pid + 1 } in
    elim (send_ioctl_cmd Command.get_user a io l0.kernel) [
      | none ↦ none
      | some (owner, k) ↦
          let l : Loading = record l0 {
            ubitmap = record l0.ubitmap { bitmap_size = d.bitmap_size };
            ioctl_obj = io;
            kernel = k;
          } in
          if not recovery && not (is_resumed l.conn)
          then copy_and_flip_with meanwhile d owner a' l
          else some (copy_again d l)
    ]

-- `server_bitmap_load_from_memory` when no request comes in between.
pub load_from_memory : Bool → Mapping → ℕ → Answers → Answers → Loading → Option Loading
unfolding load_from_memory_with
load_from_memory = load_from_memory_with (λ m. m)

-- `bitmap_server_setup`
pub bitmap_server_setup : Bool → Mapping → ℕ → Answers → Answers → Loading → Option Loading
unfolding load_from_memory get_total_bits_set
bitmap_server_setup recovery d server_pid a a' l0 =
    elim (load_from_memory recovery d server_pid a a' l0) [
      | none ↦ none
      | some l ↦ some (record l {
        ubitmap = record l.ubitmap {
          total_bits_set = get_total_bits_set l.ubitmap.bitmap_area l.kernel.memory;
          bitmap_state = UserBitmapState.ready;
        };
      })
    ]

-- `bitmap_server_destroy`: the half that was copied is cleared.
pub bitmap_server_destroy : UserBitmap → Mapping → Memory → Memory
unfolding clear_active_bitmap
bitmap_server_destroy b d m = elim b.bmap_user [
  | BitmapUser.user ↦ clear_active_bitmap d.active_bitmap d.bitmap_size m
  | BitmapUser.kernel ↦ clear_active_bitmap d.active_bitmap_backup d.bitmap_size m
]

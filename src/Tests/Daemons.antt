-- ===== src/Tests/Daemons.antt =====
-- A resynchronisation between two small disks, and messages to a server.
use Prim.{tt}
use greko.Base.{
  ℕ, ◌+◌, ◌*◌, ◌/◌, ◌%◌, ◌<◌, ◌≡◌, inl, refl, ap, true, false, ◌&&◌, Option, none, some, [], ◌∷◌,
  ltb, leb, ◌==◌, if◌then◌else◌, arith,
}
use greko.Memory.{Memory, unmark}
use greko.Kernel.Bitmap.{BitmapUser}
use greko.User.Types.{
  Bytes, Header, Opcode, PartnerState, RelationState, ObjectState, IoState, RepState, RepMode,
  buf_size_in_bytes,
}
use greko.User.Posix.{Posix, Packet, header, bytes}
use greko.User.Resync.{Client, Ending, restart_resync}
use greko.User.Resync.Reliable.{Reliable, splice, is_wanted}
use greko.User.Resync.Complete.{restart_resync-copies, restart_resync-agrees, IsFinished}
use greko.User.Resync.Result.{grain_bytes}
use greko.User.ServerBitmap.{
  UserBitmap, UserBitmapState, Mapping, Loading, load_from_memory, bitmap_server_setup,
  bitmap_server_destroy, get_total_bits_set,
}
use greko.User.ServerBitmap.Counting.{number_set, get_total_bits_set-number_set}
use greko.User.ServerBitmap.Flip.{load_from_memory-swaps, bitmap_server_setup-announces}
use greko.User.ServerBitmap.Requests.{half_of}
use greko.User.Server.{Server, GivenBack, make_partner, proposed}
use greko.User.Server.Handlers.{syn_received, dispatch}
use greko.User.Server.Handlers.Termination.{terminate_all, terminate_all-once}
use greko.User.Server.Handlers.Lifecycle.{syn_received-sizes, dispatch-terminated}
use greko.Tests.Control.{a_request, granted, one_device}

-- The source disk; the target differs in the grain 3.
abbrev pub source : Bytes
source x = x % 251

abbrev pub old_target : Bytes
old_target x = if x / 4096 == 3 then 255 else x % 251

abbrev pub dirty : Memory
dirty i = i == 3

-- Both disks and the connection: the target, the offset of the answer on the way, and the position
-- in the disk.
pub record World : Type 0 where
  pub target : Bytes
  pub answer : ℕ
  pub at : ℕ

abbrev pub ask : Packet → World → World
ask (header h) w = record w { answer = (h.curr_pos * 8 + h.chunk_pos * 8) * 512 }
ask (bytes n b) w = w

abbrev pub calls : Posix World
calls = record {
  lseek = λ fd o w. (true, record w { at = o });
  read = λ fd b n w. (true, (λ i. source (w.at + i)), w);
  write = λ fd b n w. (true, record w { target = splice w.at n b w.target });
  send = λ fd p w. (true, ask p w);
  recv = λ fd b n w. (true, (λ i. source (w.answer + i)), w);
  timed_out = λ w. false;
  hang_up = λ fd w. w;
  pauses = λ w. false;
}

abbrev pub calls-Reliable : Reliable calls 5 6 source 8 8 524288
calls-Reliable = record {
  Up = λ w. Unit;
  Sent = λ o w. w.answer ≡ o;
  Seeked = λ o w. w.at ≡ o;
  target = λ w. w.target;
  calm = λ w. refl;
  send_request = λ h w up e fits. (refl, refl, refl);
  recv_answer = λ o b w sent. (refl, refl, (λ i lt. ap (λ o. source (o + i)) sent), tt, refl);
  seek_target = λ o w up fits. (refl, tt, refl, refl);
  write_target =
      λ o b w up seeked fits. (refl, tt, ap (λ o. splice o buf_size_in_bytes b w.target) seeked);
  send_termination = λ h w up e. refl;
}

abbrev pub a_header : Header
a_header = record {
  opcode = Opcode.syn;
  available_size = 0;
  bitmap_size = 16;
  grain_size = 8;
  chunk_size = 8;
  bandwidth = 100;
  curr_pos = 0;
  chunk_pos = 0;
  md5 = [];
  dest_ip = 49 ∷ [];
  partner_id = 0;
  relation_id = 0;
  disk = 115 ∷ [];
}

-- A client with a bitmap of 128 grains of 8 sectors.
abbrev pub a_client : Client
a_client = record {
  hdr = a_header;
  partner = PartnerState.in_use;
  relation = RelationState.in_use;
  disk = ObjectState.in_use;
  io = IoState.in_use;
  conn = ObjectState.in_use;
  rep_state = RepState.in_progress;
  last_resynced_bit = 0;
  recovery_mode = false;
  socket_fd = some 5;
  disk_fd = 6;
  bitmap_area = some dirty;
  bitmap_size = 16;
  db = [];
}

abbrev pub a_world : World
a_world = record { target = old_target; answer = 0; at = 0 }

restart_resync-copies_example :
    (c' : Client) × (w' : World) × (restart_resync calls 0 2 RepMode.no_resync source a_client
        a_world
      ≡ (Ending.finished, c', w'))
    × ((x : ℕ)
        → w'.target x ≡ (
            if leb (2 * grain_bytes 8) x
              && ltb x (a_client.bitmap_size * 8 * grain_bytes 8)
              && is_wanted RepMode.no_resync dirty (x / grain_bytes 8)
            then source x
            else a_world.target x))
    × IsFinished c'
restart_resync-copies_example =
    restart_resync-copies calls 0 5 6 source 8 524288 calls-Reliable (omega arith) RepMode.no_resync
      dirty 2 a_client source a_world refl refl refl refl refl refl refl refl (omega arith)
      (omega arith) refl (omega arith) (omega arith) tt

-- The target differs in no other grain.
old_target-clean :
    (x : ℕ)
    → x < a_client.bitmap_size * 8 * grain_bytes 8
    → dirty (32 * (x / grain_bytes 8 / 32) + x / grain_bytes 8 % 32) ≡ false
    → old_target x ≡ source x
old_target-clean x hi e = ground arith

restart_resync-agrees_example :
    (c' : Client) × (w' : World) × (restart_resync calls 0 0 RepMode.no_resync source a_client
        a_world
      ≡ (Ending.finished, c', w'))
    × ((x : ℕ) → x < a_client.bitmap_size * 8 * grain_bytes 8 → w'.target x ≡ source x)
restart_resync-agrees_example =
    restart_resync-agrees calls 0 5 6 source 8 524288 calls-Reliable (omega arith) dirty a_client
      source a_world refl refl refl refl refl refl refl refl (omega arith) refl (omega arith)
      (omega arith) tt old_target-clean

get_total_bits_set-number_set_example :
    get_total_bits_set 0 dirty ≡ number_set (λ i. dirty (8 * 0 + i)) (8 * 16384) 0
get_total_bits_set-number_set_example = get_total_bits_set-number_set 0 dirty

-- The mapping of the device 1 of `one_device`, and the daemon that asks for its bitmap.
abbrev pub a_mapping : Mapping
a_mapping = record { active_bitmap = 65536; active_bitmap_backup = 81920; bitmap_size = 16384 }

abbrev a_ubitmap : UserBitmap
a_ubitmap = record {
  bitmap_area = 131072;
  bitmap_size = 16384;
  bitmap_state = UserBitmapState.init;
  bmap_user = BitmapUser.kernel;
  total_bits_set = 0;
}

abbrev pub a_loading : Loading
a_loading = record {
  ubitmap = a_ubitmap;
  conn = ObjectState.in_use;
  ioctl_obj = a_request;
  kernel = one_device;
}

load_from_memory-swaps_example :
    (l : Loading) × (load_from_memory false a_mapping 0 granted granted a_loading ≡ some l)
    × ((x : ℕ)
        → x < 8 * a_mapping.bitmap_size
        → l.kernel.memory (8 * l.ubitmap.bitmap_area + x)
          ≡ one_device.memory (8 * (one_device.bitmaps 0).bitmap_area + x))
    × ((l.kernel.bitmaps 0).bitmap_area ≡ half_of l.ubitmap.bmap_user a_mapping)
    × ((l.kernel.bitmaps 0).bitmap_area + (one_device.bitmaps 0).bitmap_area
        ≡ a_mapping.active_bitmap + a_mapping.active_bitmap_backup)
    × ((m : Memory)
        → bitmap_server_destroy l.ubitmap a_mapping m
          ≡ unmark
              (8 * (one_device.bitmaps 0).bitmap_area)
              (8 * ((one_device.bitmaps 0).bitmap_area + a_mapping.bitmap_size))
              m)
load_from_memory-swaps_example =
    load_from_memory-swaps a_mapping 0 0 granted granted a_loading refl refl refl refl
      (record { area = refl; size = refl; backup = refl; words = refl }) refl (inl (omega arith))

bitmap_server_setup-announces_example :
    (l : Loading) × (bitmap_server_setup false a_mapping 0 granted granted a_loading ≡ some l)
    × (l.ubitmap.bitmap_state ≡ UserBitmapState.ready)
    × (l.ubitmap.total_bits_set
        ≡ number_set
            (λ i. one_device.memory (8 * (one_device.bitmaps 0).bitmap_area + i))
            (8 * 16384)
            0)
bitmap_server_setup-announces_example =
    bitmap_server_setup-announces a_mapping 0 0 granted granted a_loading refl refl refl refl
      (record { area = refl; size = refl; backup = refl; words = refl }) refl refl
      (inl (omega arith))

abbrev pub a_server : Server
a_server = record {
  partner = λ i. record {
    id = 0;
    ip = [];
    bandwidth = 0;
    is_active = false;
    obj_state = PartnerState.in_use;
    socket_fd = 5;
  };
  relation = λ i. record {
    is_primary = true;
    relation_id = 0;
    partner_id = 0;
    obj_state = RelationState.in_use;
    device = [];
    bitmap_size = 0;
    grain_size = 0;
    chunk_size = 0;
  };
  disk = λ i. record { obj_state = ObjectState.in_use; disk_fd = 6; mapping = a_mapping };
  io = λ i. IoState.in_use;
  conn = λ i. record { obj_state = ObjectState.in_use; conn_fd = some 5 };
  sizes = λ i. record { bitmap_size = 16; grain_size = 8; chunk_size = 8 };
  bitmap = λ i. a_ubitmap;
  rep_conn = λ i. true;
  recovery_mode = λ i. false;
  partner_created = λ i. true;
  sock_recovery = λ i. false;
  total_conn = 1;
  ps_count = 1;
  ioctl_obj = a_request;
  kernel = one_device;
  db = [];
  given_back = [];
}

-- The request for the chunk 0 of the grain 3, and the end of the replication.
abbrev pub a_data : Header
a_data = record a_header { opcode = Opcode.data_op; curr_pos = 3 }

abbrev pub an_end : Header
an_end = record a_header { opcode = Opcode.rplc_termination }

terminate_all-once_example :
    ((terminate_all (an_end ∷ a_data ∷ an_end ∷ []) a_server).given_back
      ≡ GivenBack.free 131072 ∷ GivenBack.close 6 ∷ GivenBack.flush 6 ∷ [])
    × ((terminate_all (an_end ∷ a_data ∷ an_end ∷ []) a_server).kernel.memory
        ≡ bitmap_server_destroy (a_server.bitmap 0) a_mapping one_device.memory)
    × (((terminate_all (an_end ∷ a_data ∷ an_end ∷ []) a_server).disk 0).obj_state
        ≡ ObjectState.released)
terminate_all-once_example =
    terminate_all-once an_end (a_data ∷ an_end ∷ []) a_server refl (refl, (refl, tt))

syn_received-sizes_example :
    (s1 : Server) × (h2 : Header) × (s2 : Server) × (w2 : World) × (make_partner a_header a_server
      ≡ some (a_header, s1))
    × (syn_received calls a_header s1 a_world ≡ some (h2, s2, w2))
    × (w2 ≡ (calls.send (s1.partner 0).socket_fd (header h2) a_world).1)
    × (h2.opcode ≡ Opcode.syn_ack)
    × (proposed h2 ≡ proposed a_header)
    × ((s2.relation a_header.partner_id).grain_size ≡ a_header.grain_size)
    × ((s2.relation a_header.partner_id).chunk_size ≡ a_header.chunk_size)
    × ((s2.relation a_header.partner_id).bitmap_size ≡ a_header.bitmap_size)
syn_received-sizes_example =
    syn_received-sizes calls a_header a_header a_server a_world (omega arith) (omega arith) refl

-- A server without an answer to VERIFY_DATA.
abbrev no_answer : Header → Server → World → Option (Header × Server × World)
no_answer h s w = some (h, s, w)

dispatch-terminated_example :
    (s1 : Server) × (dispatch calls no_answer none granted granted an_end a_server a_world
      ≡ some (an_end, s1, a_world))
    × (dispatch calls no_answer none granted granted a_data s1 a_world ≡ some (a_data, s1, a_world))
dispatch-terminated_example =
    dispatch-terminated calls no_answer none granted granted an_end a_data a_server a_world a_world
      refl refl refl refl

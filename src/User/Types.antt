-- ===== src/User/Types.antt =====
-- The types that server and client daemon share: atdr_replication_header.h, and the object states of
-- the headers of user/atdr_linux.
use greko.Base.{ℕ, List}

-- A buffer or a disk: the byte at each offset.
abbrev pub Bytes : Type 0
Bytes = ℕ → ℕ

-- BUF_SIZE_IN_BYTES
abbrev pub buf_size_in_bytes : ℕ
buf_size_in_bytes = 4096

-- CHUNK_SIZE, the bytes of a sector.
abbrev pub sector_bytes : ℕ
sector_bytes = 512

-- MAX_BITS_LEN, `4*4096*8`
abbrev pub max_bits_len : ℕ
max_bits_len = 131072

-- BITMAP_SIZE, `4*4096`
abbrev pub user_bitmap_size : ℕ
user_bitmap_size = 16384

-- enum proto_opcode_t
pub data Opcode : Type 0 where
  syn syn_ack ack bitmap_metadata data_op rplc_termination make_partner remove_partner : Opcode
  rm_relation rm_relation_peer data_req data_prep data_start data_done : Opcode
  verify_data verify_data_rsp verify_data_ign : Opcode

-- struct replication_header, without its operations, its state and its role.
pub record Header : Type 0 where
  pub opcode : Opcode
  pub available_size : ℕ
  pub bitmap_size : ℕ
  pub grain_size : ℕ
  pub chunk_size : ℕ
  pub bandwidth : ℕ
  pub curr_pos : ℕ
  pub chunk_pos : ℕ
  pub md5 : List ℕ
  pub dest_ip : List ℕ
  pub partner_id : ℕ
  pub relation_id : ℕ
  pub disk : List ℕ

-- enum partner_obj_state_t
pub data PartnerState : Type 0 where
  free in_use released pause recovery resume : PartnerState

-- enum rel_obj_state_t
pub data RelationState : Type 0 where
  free in_use released : RelationState

-- The states of a connection; those of a disk are the same.
pub data ObjectState : Type 0 where
  in_use pause resume released : ObjectState

-- enum io_state_t
pub data IoState : Type 0 where
  free in_use released : IoState

-- enum rep_state_t
pub data RepState : Type 0 where
  in_progress pause resume completed : RepState

-- enum rep_mode_t
pub data RepMode : Type 0 where
  no_resync full_resync : RepMode

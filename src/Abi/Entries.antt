-- ===== src/Abi/Entries.antt =====
-- src/sys.rs: the submission entry and its unions.
use uring_ws.Base.{List, [], ◌∷◌}
use uring_ws.Abi.{
  Declaration, Field, array, field, kernel_rwf_t, kernel_s32, kernel_u16, kernel_u32, kernel_u64,
  kernel_u8, packed_union, shape_of, struct, union,
}

abbrev pub io_uring_sqe_ty_1_ty_1_fields : List Field
io_uring_sqe_ty_1_ty_1_fields = field "cmd_op" kernel_u32 ∷ field "__pad1" kernel_u32 ∷ []

abbrev pub io_uring_sqe_ty_1_ty_1 : Declaration
io_uring_sqe_ty_1_ty_1 = record {
  kind = struct;
  fields = io_uring_sqe_ty_1_ty_1_fields;
  size = 8;
  align = 4;
  offsets = ("cmd_op", 0) ∷ ("__pad1", 4) ∷ [];
}

abbrev pub io_uring_sqe_ty_1_fields : List Field
io_uring_sqe_ty_1_fields =
    field "off" kernel_u64
    ∷ field "addr2" kernel_u64
    ∷ field "__bindgen_anon_1" (shape_of struct io_uring_sqe_ty_1_ty_1_fields)
    ∷ []

abbrev pub io_uring_sqe_ty_1 : Declaration
io_uring_sqe_ty_1 = record {
  kind = union;
  fields = io_uring_sqe_ty_1_fields;
  size = 8;
  align = 8;
  offsets = ("off", 0) ∷ ("addr2", 0) ∷ [];
}

abbrev pub io_uring_sqe_ty_2_ty_1_fields : List Field
io_uring_sqe_ty_2_ty_1_fields = field "level" kernel_u32 ∷ field "optname" kernel_u32 ∷ []

abbrev pub io_uring_sqe_ty_2_ty_1 : Declaration
io_uring_sqe_ty_2_ty_1 = record {
  kind = struct;
  fields = io_uring_sqe_ty_2_ty_1_fields;
  size = 8;
  align = 4;
  offsets = ("level", 0) ∷ ("optname", 4) ∷ [];
}

abbrev pub io_uring_sqe_ty_2_fields : List Field
io_uring_sqe_ty_2_fields =
    field "addr" kernel_u64
    ∷ field "splice_off_in" kernel_u64
    ∷ field "__bindgen_anon_1" (shape_of struct io_uring_sqe_ty_2_ty_1_fields)
    ∷ []

abbrev pub io_uring_sqe_ty_2 : Declaration
io_uring_sqe_ty_2 = record {
  kind = union;
  fields = io_uring_sqe_ty_2_fields;
  size = 8;
  align = 8;
  offsets = ("addr", 0) ∷ ("splice_off_in", 0) ∷ [];
}

abbrev pub io_uring_sqe_ty_3_fields : List Field
io_uring_sqe_ty_3_fields =
    field "rw_flags" kernel_rwf_t
    ∷ field "fsync_flags" kernel_u32
    ∷ field "poll_events" kernel_u16
    ∷ field "poll32_events" kernel_u32
    ∷ field "sync_range_flags" kernel_u32
    ∷ field "msg_flags" kernel_u32
    ∷ field "timeout_flags" kernel_u32
    ∷ field "accept_flags" kernel_u32
    ∷ field "cancel_flags" kernel_u32
    ∷ field "open_flags" kernel_u32
    ∷ field "statx_flags" kernel_u32
    ∷ field "fadvise_advice" kernel_u32
    ∷ field "splice_flags" kernel_u32
    ∷ field "rename_flags" kernel_u32
    ∷ field "unlink_flags" kernel_u32
    ∷ field "hardlink_flags" kernel_u32
    ∷ field "xattr_flags" kernel_u32
    ∷ field "msg_ring_flags" kernel_u32
    ∷ field "uring_cmd_flags" kernel_u32
    ∷ field "waitid_flags" kernel_u32
    ∷ field "futex_flags" kernel_u32
    ∷ field "install_fd_flags" kernel_u32
    ∷ field "nop_flags" kernel_u32
    ∷ []

abbrev pub io_uring_sqe_ty_3 : Declaration
io_uring_sqe_ty_3 = record {
  kind = union;
  fields = io_uring_sqe_ty_3_fields;
  size = 4;
  align = 4;
  offsets =
      ("rw_flags", 0)
      ∷ ("fsync_flags", 0)
      ∷ ("poll_events", 0)
      ∷ ("poll32_events", 0)
      ∷ ("sync_range_flags", 0)
      ∷ ("msg_flags", 0)
      ∷ ("timeout_flags", 0)
      ∷ ("accept_flags", 0)
      ∷ ("cancel_flags", 0)
      ∷ ("open_flags", 0)
      ∷ ("statx_flags", 0)
      ∷ ("fadvise_advice", 0)
      ∷ ("splice_flags", 0)
      ∷ ("rename_flags", 0)
      ∷ ("unlink_flags", 0)
      ∷ ("hardlink_flags", 0)
      ∷ ("xattr_flags", 0)
      ∷ ("msg_ring_flags", 0)
      ∷ ("uring_cmd_flags", 0)
      ∷ ("waitid_flags", 0)
      ∷ ("futex_flags", 0)
      ∷ ("install_fd_flags", 0)
      ∷ ("nop_flags", 0)
      ∷ [];
}

abbrev pub io_uring_sqe_ty_4_fields : List Field
io_uring_sqe_ty_4_fields = field "buf_index" kernel_u16 ∷ field "buf_group" kernel_u16 ∷ []

abbrev pub io_uring_sqe_ty_4 : Declaration
io_uring_sqe_ty_4 = record {
  kind = packed_union;
  fields = io_uring_sqe_ty_4_fields;
  size = 2;
  align = 1;
  offsets = ("buf_index", 0) ∷ ("buf_group", 0) ∷ [];
}

abbrev pub io_uring_sqe_ty_5_ty_1_fields : List Field
io_uring_sqe_ty_5_ty_1_fields =
    field "addr_len" kernel_u16 ∷ field "__pad3" (array 1 kernel_u16) ∷ []

abbrev pub io_uring_sqe_ty_5_ty_1 : Declaration
io_uring_sqe_ty_5_ty_1 = record {
  kind = struct;
  fields = io_uring_sqe_ty_5_ty_1_fields;
  size = 4;
  align = 2;
  offsets = ("addr_len", 0) ∷ ("__pad3", 2) ∷ [];
}

abbrev pub io_uring_sqe_ty_5_fields : List Field
io_uring_sqe_ty_5_fields =
    field "splice_fd_in" kernel_s32
    ∷ field "file_index" kernel_u32
    ∷ field "optlen" kernel_u32
    ∷ field "__bindgen_anon_1" (shape_of struct io_uring_sqe_ty_5_ty_1_fields)
    ∷ []

abbrev pub io_uring_sqe_ty_5 : Declaration
io_uring_sqe_ty_5 = record {
  kind = union;
  fields = io_uring_sqe_ty_5_fields;
  size = 4;
  align = 4;
  offsets = ("splice_fd_in", 0) ∷ ("file_index", 0) ∷ ("optlen", 0) ∷ [];
}

abbrev pub io_uring_sqe_ty_6_ty_1_fields : List Field
io_uring_sqe_ty_6_ty_1_fields = field "addr3" kernel_u64 ∷ field "__pad2" (array 1 kernel_u64) ∷ []

abbrev pub io_uring_sqe_ty_6_ty_1 : Declaration
io_uring_sqe_ty_6_ty_1 = record {
  kind = struct;
  fields = io_uring_sqe_ty_6_ty_1_fields;
  size = 16;
  align = 8;
  offsets = ("addr3", 0) ∷ ("__pad2", 8) ∷ [];
}

abbrev pub io_uring_sqe_ty_6_fields : List Field
io_uring_sqe_ty_6_fields =
    field "__bindgen_anon_1" (shape_of struct io_uring_sqe_ty_6_ty_1_fields)
    ∷ field "optval" kernel_u64
    ∷ field "cmd" (array 0 kernel_u8)
    ∷ []

abbrev pub io_uring_sqe_ty_6 : Declaration
io_uring_sqe_ty_6 = record {
  kind = union;
  fields = io_uring_sqe_ty_6_fields;
  size = 16;
  align = 8;
  offsets = ("optval", 0) ∷ ("cmd", 0) ∷ [];
}

abbrev pub io_uring_sqe_fields : List Field
io_uring_sqe_fields =
    field "opcode" kernel_u8
    ∷ field "flags" kernel_u8
    ∷ field "ioprio" kernel_u16
    ∷ field "fd" kernel_s32
    ∷ field "__bindgen_anon_1" (shape_of union io_uring_sqe_ty_1_fields)
    ∷ field "__bindgen_anon_2" (shape_of union io_uring_sqe_ty_2_fields)
    ∷ field "len" kernel_u32
    ∷ field "__bindgen_anon_3" (shape_of union io_uring_sqe_ty_3_fields)
    ∷ field "user_data" kernel_u64
    ∷ field "__bindgen_anon_4" (shape_of packed_union io_uring_sqe_ty_4_fields)
    ∷ field "personality" kernel_u16
    ∷ field "__bindgen_anon_5" (shape_of union io_uring_sqe_ty_5_fields)
    ∷ field "__bindgen_anon_6" (shape_of union io_uring_sqe_ty_6_fields)
    ∷ []

abbrev pub io_uring_sqe : Declaration
io_uring_sqe = record {
  kind = struct;
  fields = io_uring_sqe_fields;
  size = 64;
  align = 8;
  offsets =
      ("opcode", 0)
      ∷ ("flags", 1)
      ∷ ("ioprio", 2)
      ∷ ("fd", 4)
      ∷ ("len", 24)
      ∷ ("user_data", 32)
      ∷ ("personality", 42)
      ∷ [];
}

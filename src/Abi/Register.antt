-- ===== src/Abi/Register.antt =====
-- src/sys.rs: the arguments of registration.
use uring_ws.Base.{List, [], ◌∷◌}
use uring_ws.Abi.{
  Declaration, Field, array, field, incomplete_array_field, kernel_s32, kernel_u16, kernel_u32,
  kernel_u64, kernel_u8, shape_of, struct, union,
}
use uring_ws.Abi.Events.{kernel_timespec_fields}

abbrev pub io_uring_files_update_fields : List Field
io_uring_files_update_fields =
    field "offset" kernel_u32 ∷ field "resv" kernel_u32 ∷ field "fds" kernel_u64 ∷ []

abbrev pub io_uring_files_update : Declaration
io_uring_files_update = record {
  kind = struct;
  fields = io_uring_files_update_fields;
  size = 16;
  align = 8;
  offsets = ("offset", 0) ∷ ("resv", 4) ∷ ("fds", 8) ∷ [];
}

abbrev pub io_uring_rsrc_register_fields : List Field
io_uring_rsrc_register_fields =
    field "nr" kernel_u32
    ∷ field "flags" kernel_u32
    ∷ field "resv2" kernel_u64
    ∷ field "data" kernel_u64
    ∷ field "tags" kernel_u64
    ∷ []

abbrev pub io_uring_rsrc_register : Declaration
io_uring_rsrc_register = record {
  kind = struct;
  fields = io_uring_rsrc_register_fields;
  size = 32;
  align = 8;
  offsets = ("nr", 0) ∷ ("flags", 4) ∷ ("resv2", 8) ∷ ("data", 16) ∷ ("tags", 24) ∷ [];
}

abbrev pub io_uring_rsrc_update_fields : List Field
io_uring_rsrc_update_fields =
    field "offset" kernel_u32 ∷ field "resv" kernel_u32 ∷ field "data" kernel_u64 ∷ []

abbrev pub io_uring_rsrc_update : Declaration
io_uring_rsrc_update = record {
  kind = struct;
  fields = io_uring_rsrc_update_fields;
  size = 16;
  align = 8;
  offsets = ("offset", 0) ∷ ("resv", 4) ∷ ("data", 8) ∷ [];
}

abbrev pub io_uring_rsrc_update2_fields : List Field
io_uring_rsrc_update2_fields =
    field "offset" kernel_u32
    ∷ field "resv" kernel_u32
    ∷ field "data" kernel_u64
    ∷ field "tags" kernel_u64
    ∷ field "nr" kernel_u32
    ∷ field "resv2" kernel_u32
    ∷ []

abbrev pub io_uring_rsrc_update2 : Declaration
io_uring_rsrc_update2 = record {
  kind = struct;
  fields = io_uring_rsrc_update2_fields;
  size = 32;
  align = 8;
  offsets =
      ("offset", 0) ∷ ("resv", 4) ∷ ("data", 8) ∷ ("tags", 16) ∷ ("nr", 24) ∷ ("resv2", 28) ∷ [];
}

abbrev pub io_uring_probe_op_fields : List Field
io_uring_probe_op_fields =
    field "op" kernel_u8
    ∷ field "resv" kernel_u8
    ∷ field "flags" kernel_u16
    ∷ field "resv2" kernel_u32
    ∷ []

abbrev pub io_uring_probe_op : Declaration
io_uring_probe_op = record {
  kind = struct;
  fields = io_uring_probe_op_fields;
  size = 8;
  align = 4;
  offsets = ("op", 0) ∷ ("resv", 1) ∷ ("flags", 2) ∷ ("resv2", 4) ∷ [];
}

abbrev pub io_uring_probe_fields : List Field
io_uring_probe_fields =
    field "last_op" kernel_u8
    ∷ field "ops_len" kernel_u8
    ∷ field "resv" kernel_u16
    ∷ field "resv2" (array 3 kernel_u32)
    ∷ field "ops" (incomplete_array_field (shape_of struct io_uring_probe_op_fields))
    ∷ []

abbrev pub io_uring_probe : Declaration
io_uring_probe = record {
  kind = struct;
  fields = io_uring_probe_fields;
  size = 16;
  align = 4;
  offsets = ("last_op", 0) ∷ ("ops_len", 1) ∷ ("resv", 2) ∷ ("resv2", 4) ∷ ("ops", 16) ∷ [];
}

abbrev pub io_uring_restriction_ty_1_fields : List Field
io_uring_restriction_ty_1_fields =
    field "register_op" kernel_u8 ∷ field "sqe_op" kernel_u8 ∷ field "sqe_flags" kernel_u8 ∷ []

abbrev pub io_uring_restriction_ty_1 : Declaration
io_uring_restriction_ty_1 = record {
  kind = union;
  fields = io_uring_restriction_ty_1_fields;
  size = 1;
  align = 1;
  offsets = ("register_op", 0) ∷ ("sqe_op", 0) ∷ ("sqe_flags", 0) ∷ [];
}

abbrev pub io_uring_restriction_fields : List Field
io_uring_restriction_fields =
    field "opcode" kernel_u16
    ∷ field "__bindgen_anon_1" (shape_of union io_uring_restriction_ty_1_fields)
    ∷ field "resv" kernel_u8
    ∷ field "resv2" (array 3 kernel_u32)
    ∷ []

abbrev pub io_uring_restriction : Declaration
io_uring_restriction = record {
  kind = struct;
  fields = io_uring_restriction_fields;
  size = 16;
  align = 4;
  offsets = ("opcode", 0) ∷ ("resv", 3) ∷ ("resv2", 4) ∷ [];
}

abbrev pub io_uring_clock_register_fields : List Field
io_uring_clock_register_fields =
    field "clockid" kernel_u32 ∷ field "__resv" (array 3 kernel_u32) ∷ []

abbrev pub io_uring_clock_register : Declaration
io_uring_clock_register = record {
  kind = struct;
  fields = io_uring_clock_register_fields;
  size = 16;
  align = 4;
  offsets = ("clockid", 0) ∷ ("__resv", 4) ∷ [];
}

abbrev pub io_uring_napi_fields : List Field
io_uring_napi_fields =
    field "busy_poll_to" kernel_u32
    ∷ field "prefer_busy_poll" kernel_u8
    ∷ field "pad" (array 3 kernel_u8)
    ∷ field "resv" kernel_u64
    ∷ []

abbrev pub io_uring_napi : Declaration
io_uring_napi = record {
  kind = struct;
  fields = io_uring_napi_fields;
  size = 16;
  align = 8;
  offsets = ("busy_poll_to", 0) ∷ ("prefer_busy_poll", 4) ∷ ("pad", 5) ∷ ("resv", 8) ∷ [];
}

abbrev pub io_uring_sync_cancel_reg_fields : List Field
io_uring_sync_cancel_reg_fields =
    field "addr" kernel_u64
    ∷ field "fd" kernel_s32
    ∷ field "flags" kernel_u32
    ∷ field "timeout" (shape_of struct kernel_timespec_fields)
    ∷ field "opcode" kernel_u8
    ∷ field "pad" (array 7 kernel_u8)
    ∷ field "pad2" (array 3 kernel_u64)
    ∷ []

abbrev pub io_uring_sync_cancel_reg : Declaration
io_uring_sync_cancel_reg = record {
  kind = struct;
  fields = io_uring_sync_cancel_reg_fields;
  size = 64;
  align = 8;
  offsets =
      ("addr", 0)
      ∷ ("fd", 8)
      ∷ ("flags", 12)
      ∷ ("timeout", 16)
      ∷ ("opcode", 32)
      ∷ ("pad", 33)
      ∷ ("pad2", 40)
      ∷ [];
}

abbrev pub io_uring_file_index_range_fields : List Field
io_uring_file_index_range_fields =
    field "off" kernel_u32 ∷ field "len" kernel_u32 ∷ field "resv" kernel_u64 ∷ []

abbrev pub io_uring_file_index_range : Declaration
io_uring_file_index_range = record {
  kind = struct;
  fields = io_uring_file_index_range_fields;
  size = 16;
  align = 8;
  offsets = ("off", 0) ∷ ("len", 4) ∷ ("resv", 8) ∷ [];
}

-- ===== src/Abi/Buffers.antt =====
-- src/sys.rs: the rings of buffers.
use uring_ws.Base.{List, [], ◌∷◌}
use uring_ws.Abi.{
  Declaration, Field, array, field, kernel_u16, kernel_u32, kernel_u64, shape_of, struct, union,
}

abbrev pub io_uring_clone_buffers_fields : List Field
io_uring_clone_buffers_fields =
    field "src_fd" kernel_u32 ∷ field "flags" kernel_u32 ∷ field "pad" (array 6 kernel_u32) ∷ []

abbrev pub io_uring_clone_buffers : Declaration
io_uring_clone_buffers = record {
  kind = struct;
  fields = io_uring_clone_buffers_fields;
  size = 32;
  align = 4;
  offsets = ("src_fd", 0) ∷ ("flags", 4) ∷ ("pad", 8) ∷ [];
}

abbrev pub io_uring_buf_fields : List Field
io_uring_buf_fields =
    field "addr" kernel_u64
    ∷ field "len" kernel_u32
    ∷ field "bid" kernel_u16
    ∷ field "resv" kernel_u16
    ∷ []

abbrev pub io_uring_buf : Declaration
io_uring_buf = record {
  kind = struct;
  fields = io_uring_buf_fields;
  size = 16;
  align = 8;
  offsets = ("addr", 0) ∷ ("len", 8) ∷ ("bid", 12) ∷ ("resv", 14) ∷ [];
}

abbrev pub io_uring_buf_ring_ty_1_ty_1_fields : List Field
io_uring_buf_ring_ty_1_ty_1_fields =
    field "resv1" kernel_u64
    ∷ field "resv2" kernel_u32
    ∷ field "resv3" kernel_u16
    ∷ field "tail" kernel_u16
    ∷ []

abbrev pub io_uring_buf_ring_ty_1_ty_1 : Declaration
io_uring_buf_ring_ty_1_ty_1 = record {
  kind = struct;
  fields = io_uring_buf_ring_ty_1_ty_1_fields;
  size = 16;
  align = 8;
  offsets = ("resv1", 0) ∷ ("resv2", 8) ∷ ("resv3", 12) ∷ ("tail", 14) ∷ [];
}

abbrev pub io_uring_buf_ring_ty_1_fields : List Field
io_uring_buf_ring_ty_1_fields =
    field "__bindgen_anon_1" (shape_of struct io_uring_buf_ring_ty_1_ty_1_fields)
    ∷ field "bufs" (array 0 (shape_of struct io_uring_buf_fields))
    ∷ []

abbrev pub io_uring_buf_ring_ty_1 : Declaration
io_uring_buf_ring_ty_1 = record {
  kind = union;
  fields = io_uring_buf_ring_ty_1_fields;
  size = 16;
  align = 8;
  offsets = ("bufs", 0) ∷ [];
}

abbrev pub io_uring_buf_ring_fields : List Field
io_uring_buf_ring_fields =
    field "__bindgen_anon_1" (shape_of union io_uring_buf_ring_ty_1_fields) ∷ []

abbrev pub io_uring_buf_ring : Declaration
io_uring_buf_ring = record {
  kind = struct;
  fields = io_uring_buf_ring_fields;
  size = 16;
  align = 8;
  offsets = [];
}

abbrev pub io_uring_buf_reg_fields : List Field
io_uring_buf_reg_fields =
    field "ring_addr" kernel_u64
    ∷ field "ring_entries" kernel_u32
    ∷ field "bgid" kernel_u16
    ∷ field "flags" kernel_u16
    ∷ field "resv" (array 3 kernel_u64)
    ∷ []

abbrev pub io_uring_buf_reg : Declaration
io_uring_buf_reg = record {
  kind = struct;
  fields = io_uring_buf_reg_fields;
  size = 40;
  align = 8;
  offsets =
      ("ring_addr", 0) ∷ ("ring_entries", 8) ∷ ("bgid", 12) ∷ ("flags", 14) ∷ ("resv", 16) ∷ [];
}

abbrev pub io_uring_buf_status_fields : List Field
io_uring_buf_status_fields =
    field "buf_group" kernel_u32 ∷ field "head" kernel_u32 ∷ field "resv" (array 8 kernel_u32) ∷ []

abbrev pub io_uring_buf_status : Declaration
io_uring_buf_status = record {
  kind = struct;
  fields = io_uring_buf_status_fields;
  size = 40;
  align = 4;
  offsets = ("buf_group", 0) ∷ ("head", 4) ∷ ("resv", 8) ∷ [];
}

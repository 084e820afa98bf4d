-- ===== src/Abi/Rings.antt =====
-- src/sys.rs: the two queues and the parameters of a ring.
use uring_ws.Base.{List, [], ◌∷◌}
use uring_ws.Abi.{
  Declaration, Field, array, c_int, c_uint, field, kernel_u32, kernel_u64, kernel_u8, pointer,
  shape_of, struct, usize,
}

abbrev pub io_sqring_offsets_fields : List Field
io_sqring_offsets_fields =
    field "head" kernel_u32
    ∷ field "tail" kernel_u32
    ∷ field "ring_mask" kernel_u32
    ∷ field "ring_entries" kernel_u32
    ∷ field "flags" kernel_u32
    ∷ field "dropped" kernel_u32
    ∷ field "array" kernel_u32
    ∷ field "resv1" kernel_u32
    ∷ field "user_addr" kernel_u64
    ∷ []

abbrev pub io_sqring_offsets : Declaration
io_sqring_offsets = record {
  kind = struct;
  fields = io_sqring_offsets_fields;
  size = 40;
  align = 8;
  offsets =
      ("head", 0)
      ∷ ("tail", 4)
      ∷ ("ring_mask", 8)
      ∷ ("ring_entries", 12)
      ∷ ("flags", 16)
      ∷ ("dropped", 20)
      ∷ ("array", 24)
      ∷ ("resv1", 28)
      ∷ ("user_addr", 32)
      ∷ [];
}

abbrev pub io_cqring_offsets_fields : List Field
io_cqring_offsets_fields =
    field "head" kernel_u32
    ∷ field "tail" kernel_u32
    ∷ field "ring_mask" kernel_u32
    ∷ field "ring_entries" kernel_u32
    ∷ field "overflow" kernel_u32
    ∷ field "cqes" kernel_u32
    ∷ field "flags" kernel_u32
    ∷ field "resv1" kernel_u32
    ∷ field "user_addr" kernel_u64
    ∷ []

abbrev pub io_cqring_offsets : Declaration
io_cqring_offsets = record {
  kind = struct;
  fields = io_cqring_offsets_fields;
  size = 40;
  align = 8;
  offsets =
      ("head", 0)
      ∷ ("tail", 4)
      ∷ ("ring_mask", 8)
      ∷ ("ring_entries", 12)
      ∷ ("overflow", 16)
      ∷ ("cqes", 20)
      ∷ ("flags", 24)
      ∷ ("resv1", 28)
      ∷ ("user_addr", 32)
      ∷ [];
}

abbrev pub io_uring_params_fields : List Field
io_uring_params_fields =
    field "sq_entries" kernel_u32
    ∷ field "cq_entries" kernel_u32
    ∷ field "flags" kernel_u32
    ∷ field "sq_thread_cpu" kernel_u32
    ∷ field "sq_thread_idle" kernel_u32
    ∷ field "features" kernel_u32
    ∷ field "wq_fd" kernel_u32
    ∷ field "resv" (array 3 kernel_u32)
    ∷ field "sq_off" (shape_of struct io_sqring_offsets_fields)
    ∷ field "cq_off" (shape_of struct io_cqring_offsets_fields)
    ∷ []

abbrev pub io_uring_params : Declaration
io_uring_params = record {
  kind = struct;
  fields = io_uring_params_fields;
  size = 120;
  align = 8;
  offsets =
      ("sq_entries", 0)
      ∷ ("cq_entries", 4)
      ∷ ("flags", 8)
      ∷ ("sq_thread_cpu", 12)
      ∷ ("sq_thread_idle", 16)
      ∷ ("features", 20)
      ∷ ("wq_fd", 24)
      ∷ ("resv", 28)
      ∷ ("sq_off", 40)
      ∷ ("cq_off", 80)
      ∷ [];
}

abbrev pub io_uring_sq_fields : List Field
io_uring_sq_fields =
    field "khead" pointer
    ∷ field "ktail" pointer
    ∷ field "kring_mask" pointer
    ∷ field "kring_entries" pointer
    ∷ field "kflags" pointer
    ∷ field "kdropped" pointer
    ∷ field "array" pointer
    ∷ field "sqes" pointer
    ∷ field "sqe_head" c_uint
    ∷ field "sqe_tail" c_uint
    ∷ field "ring_sz" usize
    ∷ field "ring_ptr" pointer
    ∷ field "ring_mask" c_uint
    ∷ field "ring_entries" c_uint
    ∷ field "pad" (array 2 c_uint)
    ∷ []

abbrev pub io_uring_sq : Declaration
io_uring_sq = record {
  kind = struct;
  fields = io_uring_sq_fields;
  size = 104;
  align = 8;
  offsets =
      ("khead", 0)
      ∷ ("ktail", 8)
      ∷ ("kring_mask", 16)
      ∷ ("kring_entries", 24)
      ∷ ("kflags", 32)
      ∷ ("kdropped", 40)
      ∷ ("array", 48)
      ∷ ("sqes", 56)
      ∷ ("sqe_head", 64)
      ∷ ("sqe_tail", 68)
      ∷ ("ring_sz", 72)
      ∷ ("ring_ptr", 80)
      ∷ ("ring_mask", 88)
      ∷ ("ring_entries", 92)
      ∷ ("pad", 96)
      ∷ [];
}

abbrev pub io_uring_cq_fields : List Field
io_uring_cq_fields =
    field "khead" pointer
    ∷ field "ktail" pointer
    ∷ field "kring_mask" pointer
    ∷ field "kring_entries" pointer
    ∷ field "kflags" pointer
    ∷ field "koverflow" pointer
    ∷ field "cqes" pointer
    ∷ field "ring_sz" usize
    ∷ field "ring_ptr" pointer
    ∷ field "ring_mask" c_uint
    ∷ field "ring_entries" c_uint
    ∷ field "pad" (array 2 c_uint)
    ∷ []

abbrev pub io_uring_cq : Declaration
io_uring_cq = record {
  kind = struct;
  fields = io_uring_cq_fields;
  size = 88;
  align = 8;
  offsets =
      ("khead", 0)
      ∷ ("ktail", 8)
      ∷ ("kring_mask", 16)
      ∷ ("kring_entries", 24)
      ∷ ("kflags", 32)
      ∷ ("koverflow", 40)
      ∷ ("cqes", 48)
      ∷ ("ring_sz", 56)
      ∷ ("ring_ptr", 64)
      ∷ ("ring_mask", 72)
      ∷ ("ring_entries", 76)
      ∷ ("pad", 80)
      ∷ [];
}

abbrev pub io_uring_fields : List Field
io_uring_fields =
    field "sq" (shape_of struct io_uring_sq_fields)
    ∷ field "cq" (shape_of struct io_uring_cq_fields)
    ∷ field "flags" c_uint
    ∷ field "ring_fd" c_int
    ∷ field "features" c_uint
    ∷ field "enter_ring_fd" c_int
    ∷ field "int_flags" kernel_u8
    ∷ field "pad" (array 3 kernel_u8)
    ∷ field "pad2" c_uint
    ∷ []

abbrev pub io_uring : Declaration
io_uring = record {
  kind = struct;
  fields = io_uring_fields;
  size = 216;
  align = 8;
  offsets =
      ("sq", 0)
      ∷ ("cq", 104)
      ∷ ("flags", 192)
      ∷ ("ring_fd", 196)
      ∷ ("features", 200)
      ∷ ("enter_ring_fd", 204)
      ∷ ("int_flags", 208)
      ∷ ("pad", 209)
      ∷ ("pad2", 212)
      ∷ [];
}

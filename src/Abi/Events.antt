-- ===== src/Abi/Events.antt =====
-- src/sys.rs: the completion entry and the arguments of waiting.
use uring_ws.Base.{List, [], ◌∷◌}
use uring_ws.Abi.{
  Declaration, Field, array, c_longlong, c_ulong, field, incomplete_array_field, kernel_s32,
  kernel_time64_t, kernel_u32, kernel_u64, pointer, struct, usize,
}

abbrev pub iovec_fields : List Field
iovec_fields = field "iov_base" pointer ∷ field "iov_len" usize ∷ []

abbrev pub iovec : Declaration
iovec = record {
  kind = struct;
  fields = iovec_fields;
  size = 16;
  align = 8;
  offsets = ("iov_base", 0) ∷ ("iov_len", 8) ∷ [];
}

abbrev pub sigset_t_fields : List Field
sigset_t_fields = field "__val" (array 16 c_ulong) ∷ []

abbrev pub sigset_t : Declaration
sigset_t = record {
  kind = struct;
  fields = sigset_t_fields;
  size = 128;
  align = 8;
  offsets = ("__val", 0) ∷ [];
}

abbrev pub kernel_timespec_fields : List Field
kernel_timespec_fields = field "tv_sec" kernel_time64_t ∷ field "tv_nsec" c_longlong ∷ []

abbrev pub kernel_timespec : Declaration
kernel_timespec = record {
  kind = struct;
  fields = kernel_timespec_fields;
  size = 16;
  align = 8;
  offsets = ("tv_sec", 0) ∷ ("tv_nsec", 8) ∷ [];
}

abbrev pub io_uring_cqe_fields : List Field
io_uring_cqe_fields =
    field "user_data" kernel_u64
    ∷ field "res" kernel_s32
    ∷ field "flags" kernel_u32
    ∷ field "big_cqe" (incomplete_array_field kernel_u64)
    ∷ []

abbrev pub io_uring_cqe : Declaration
io_uring_cqe = record {
  kind = struct;
  fields = io_uring_cqe_fields;
  size = 16;
  align = 8;
  offsets = ("user_data", 0) ∷ ("res", 8) ∷ ("flags", 12) ∷ ("big_cqe", 16) ∷ [];
}

abbrev pub io_uring_getevents_arg_fields : List Field
io_uring_getevents_arg_fields =
    field "sigmask" kernel_u64
    ∷ field "sigmask_sz" kernel_u32
    ∷ field "min_wait_usec" kernel_u32
    ∷ field "ts" kernel_u64
    ∷ []

abbrev pub io_uring_getevents_arg : Declaration
io_uring_getevents_arg = record {
  kind = struct;
  fields = io_uring_getevents_arg_fields;
  size = 24;
  align = 8;
  offsets = ("sigmask", 0) ∷ ("sigmask_sz", 8) ∷ ("min_wait_usec", 12) ∷ ("ts", 16) ∷ [];
}

abbrev pub io_uring_recvmsg_out_fields : List Field
io_uring_recvmsg_out_fields =
    field "namelen" kernel_u32
    ∷ field "controllen" kernel_u32
    ∷ field "payloadlen" kernel_u32
    ∷ field "flags" kernel_u32
    ∷ []

abbrev pub io_uring_recvmsg_out : Declaration
io_uring_recvmsg_out = record {
  kind = struct;
  fields = io_uring_recvmsg_out_fields;
  size = 16;
  align = 4;
  offsets = ("namelen", 0) ∷ ("controllen", 4) ∷ ("payloadlen", 8) ∷ ("flags", 12) ∷ [];
}

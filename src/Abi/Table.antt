-- ===== src/Abi/Table.antt =====
-- src/sys.rs: all declarations.
use uring_ws.Base.{List, [], ◌∷◌}
use uring_ws.Abi.{Declaration}
use uring_ws.Abi.Entries.{
  io_uring_sqe_ty_1_ty_1, io_uring_sqe_ty_1, io_uring_sqe_ty_2_ty_1, io_uring_sqe_ty_2,
  io_uring_sqe_ty_3, io_uring_sqe_ty_4, io_uring_sqe_ty_5_ty_1, io_uring_sqe_ty_5,
  io_uring_sqe_ty_6_ty_1, io_uring_sqe_ty_6, io_uring_sqe,
}
use uring_ws.Abi.Events.{
  iovec, sigset_t, kernel_timespec, io_uring_cqe, io_uring_getevents_arg, io_uring_recvmsg_out,
}
use uring_ws.Abi.Buffers.{
  io_uring_clone_buffers, io_uring_buf, io_uring_buf_ring_ty_1_ty_1, io_uring_buf_ring_ty_1,
  io_uring_buf_ring, io_uring_buf_reg, io_uring_buf_status,
}
use uring_ws.Abi.Register.{
  io_uring_files_update, io_uring_rsrc_register, io_uring_rsrc_update, io_uring_rsrc_update2,
  io_uring_probe_op, io_uring_probe, io_uring_restriction_ty_1, io_uring_restriction,
  io_uring_clock_register, io_uring_napi, io_uring_sync_cancel_reg, io_uring_file_index_range,
}
use uring_ws.Abi.Rings.{
  io_sqring_offsets, io_cqring_offsets, io_uring_params, io_uring_sq, io_uring_cq, io_uring,
}

abbrev pub declarations : List Declaration
declarations =
    iovec ∷ sigset_t ∷ kernel_timespec ∷ io_uring_sqe_ty_1_ty_1 ∷ io_uring_sqe_ty_1
    ∷ io_uring_sqe_ty_2_ty_1 ∷ io_uring_sqe_ty_2 ∷ io_uring_sqe_ty_3 ∷ io_uring_sqe_ty_4
    ∷ io_uring_sqe_ty_5_ty_1 ∷ io_uring_sqe_ty_5 ∷ io_uring_sqe_ty_6_ty_1 ∷ io_uring_sqe_ty_6
    ∷ io_uring_sqe ∷ io_uring_cqe ∷ io_sqring_offsets ∷ io_cqring_offsets ∷ io_uring_params
    ∷ io_uring_files_update ∷ io_uring_rsrc_register ∷ io_uring_rsrc_update ∷ io_uring_rsrc_update2
    ∷ io_uring_probe_op ∷ io_uring_probe ∷ io_uring_restriction_ty_1 ∷ io_uring_restriction
    ∷ io_uring_clock_register ∷ io_uring_clone_buffers ∷ io_uring_buf ∷ io_uring_buf_ring_ty_1_ty_1
    ∷ io_uring_buf_ring_ty_1 ∷ io_uring_buf_ring ∷ io_uring_buf_reg ∷ io_uring_buf_status
    ∷ io_uring_napi ∷ io_uring_getevents_arg ∷ io_uring_sync_cancel_reg ∷ io_uring_file_index_range
    ∷ io_uring_recvmsg_out ∷ io_uring_sq ∷ io_uring_cq ∷ io_uring ∷ []

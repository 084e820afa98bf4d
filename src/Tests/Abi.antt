-- ===== src/Tests/Abi.antt =====
-- The assertions on the layout of the structs, and the constants that the programs use.
use uring_ws.Base.{◌≡◌, refl, some, List, [], ◌∷◌, get_elem?, Result, ok, ◌>>◌}
use uring_ws.Abi.{Declaration, assert_const, assert_offsets, compile}
use uring_ws.Abi.Flags.{setup_flags, features, recvsend_flags, sqe_flags, cqe_flags}
use uring_ws.Abi.Codes.{ops}
use uring_ws.Sqe.{op_read, op_write, op_send, op_recv, recv_multishot_flag, buffer_select}
use uring_ws.Cqe.{cqe_f_buffer, cqe_f_buf_more}
use uring_ws.Session.{
  setup_sqpoll, setup_submit_all, setup_coop_taskrun, setup_single_issuer, setup_defer_taskrun,
  feat_sqpoll_nonfixed, feat_ext_arg,
}
use uring_ws.Abi.Table.{declarations}

compile_all : List Declaration → Result (Unit {0})
compile_all [] = ok tt
compile_all (d ∷ ds) = compile d >> compile_all ds

-- None of the assertions of the table stops the compilation.
table_compiles : compile_all declarations ≡ ok tt
unfolding compile_all compile assert_const assert_offsets
table_compiles = refl

-- The constants that the programs use are those of the tables.
setup_constants :
    (get_elem? setup_flags 1 ≡ some ("IORING_SETUP_SQPOLL", setup_sqpoll))
    × (get_elem? setup_flags 7 ≡ some ("IORING_SETUP_SUBMIT_ALL", setup_submit_all))
    × (get_elem? setup_flags 8 ≡ some ("IORING_SETUP_COOP_TASKRUN", setup_coop_taskrun))
    × (get_elem? setup_flags 12 ≡ some ("IORING_SETUP_SINGLE_ISSUER", setup_single_issuer))
    × (get_elem? setup_flags 13 ≡ some ("IORING_SETUP_DEFER_TASKRUN", setup_defer_taskrun))
    × (get_elem? features 7 ≡ some ("IORING_FEAT_SQPOLL_NONFIXED", feat_sqpoll_nonfixed))
    × (get_elem? features 8 ≡ some ("IORING_FEAT_EXT_ARG", feat_ext_arg))
setup_constants = (refl, refl, refl, refl, refl, refl, refl)

entry_constants :
    (get_elem? ops 22 ≡ some ("IORING_OP_READ", op_read))
    × (get_elem? ops 23 ≡ some ("IORING_OP_WRITE", op_write))
    × (get_elem? ops 26 ≡ some ("IORING_OP_SEND", op_send))
    × (get_elem? ops 27 ≡ some ("IORING_OP_RECV", op_recv))
    × (get_elem? recvsend_flags 1 ≡ some ("IORING_RECV_MULTISHOT", recv_multishot_flag))
    × (get_elem? sqe_flags 5 ≡ some ("IOSQE_BUFFER_SELECT", buffer_select))
    × (get_elem? cqe_flags 0 ≡ some ("IORING_CQE_F_BUFFER", cqe_f_buffer))
    × (get_elem? cqe_flags 4 ≡ some ("IORING_CQE_F_BUF_MORE", cqe_f_buf_more))
entry_constants = (refl, refl, refl, refl, refl, refl, refl, refl)

-- ===== src/Abi/Codes.antt =====
-- src/sys.rs: the constants of liburing that number something.
use uring_ws.Base.{[], ◌∷◌}
use uring_ws.Abi.Numbered.{Constants}

-- `io_uring_sqe_flags_bit`: the places of the flags of an entry.
abbrev pub sqe_flag_bits : Constants
sqe_flag_bits =
    ("IOSQE_FIXED_FILE_BIT", 0)
    ∷ ("IOSQE_IO_DRAIN_BIT", 1)
    ∷ ("IOSQE_IO_LINK_BIT", 2)
    ∷ ("IOSQE_IO_HARDLINK_BIT", 3)
    ∷ ("IOSQE_ASYNC_BIT", 4)
    ∷ ("IOSQE_BUFFER_SELECT_BIT", 5)
    ∷ ("IOSQE_CQE_SKIP_SUCCESS_BIT", 6)
    ∷ []

-- `io_uring_op`: the operations.
abbrev pub ops : Constants
ops =
    ("IORING_OP_NOP", 0)
    ∷ ("IORING_OP_READV", 1)
    ∷ ("IORING_OP_WRITEV", 2)
    ∷ ("IORING_OP_FSYNC", 3)
    ∷ ("IORING_OP_READ_FIXED", 4)
    ∷ ("IORING_OP_WRITE_FIXED", 5)
    ∷ ("IORING_OP_POLL_ADD", 6)
    ∷ ("IORING_OP_POLL_REMOVE", 7)
    ∷ ("IORING_OP_SYNC_FILE_RANGE", 8)
    ∷ ("IORING_OP_SENDMSG", 9)
    ∷ ("IORING_OP_RECVMSG", 10)
    ∷ ("IORING_OP_TIMEOUT", 11)
    ∷ ("IORING_OP_TIMEOUT_REMOVE", 12)
    ∷ ("IORING_OP_ACCEPT", 13)
    ∷ ("IORING_OP_ASYNC_CANCEL", 14)
    ∷ ("IORING_OP_LINK_TIMEOUT", 15)
    ∷ ("IORING_OP_CONNECT", 16)
    ∷ ("IORING_OP_FALLOCATE", 17)
    ∷ ("IORING_OP_OPENAT", 18)
    ∷ ("IORING_OP_CLOSE", 19)
    ∷ ("IORING_OP_FILES_UPDATE", 20)
    ∷ ("IORING_OP_STATX", 21)
    ∷ ("IORING_OP_READ", 22)
    ∷ ("IORING_OP_WRITE", 23)
    ∷ ("IORING_OP_FADVISE", 24)
    ∷ ("IORING_OP_MADVISE", 25)
    ∷ ("IORING_OP_SEND", 26)
    ∷ ("IORING_OP_RECV", 27)
    ∷ ("IORING_OP_OPENAT2", 28)
    ∷ ("IORING_OP_EPOLL_CTL", 29)
    ∷ ("IORING_OP_SPLICE", 30)
    ∷ ("IORING_OP_PROVIDE_BUFFERS", 31)
    ∷ ("IORING_OP_REMOVE_BUFFERS", 32)
    ∷ ("IORING_OP_TEE", 33)
    ∷ ("IORING_OP_SHUTDOWN", 34)
    ∷ ("IORING_OP_RENAMEAT", 35)
    ∷ ("IORING_OP_UNLINKAT", 36)
    ∷ ("IORING_OP_MKDIRAT", 37)
    ∷ ("IORING_OP_SYMLINKAT", 38)
    ∷ ("IORING_OP_LINKAT", 39)
    ∷ ("IORING_OP_MSG_RING", 40)
    ∷ ("IORING_OP_FSETXATTR", 41)
    ∷ ("IORING_OP_SETXATTR", 42)
    ∷ ("IORING_OP_FGETXATTR", 43)
    ∷ ("IORING_OP_GETXATTR", 44)
    ∷ ("IORING_OP_SOCKET", 45)
    ∷ ("IORING_OP_URING_CMD", 46)
    ∷ ("IORING_OP_SEND_ZC", 47)
    ∷ ("IORING_OP_SENDMSG_ZC", 48)
    ∷ ("IORING_OP_READ_MULTISHOT", 49)
    ∷ ("IORING_OP_WAITID", 50)
    ∷ ("IORING_OP_FUTEX_WAIT", 51)
    ∷ ("IORING_OP_FUTEX_WAKE", 52)
    ∷ ("IORING_OP_FUTEX_WAITV", 53)
    ∷ ("IORING_OP_FIXED_FD_INSTALL", 54)
    ∷ ("IORING_OP_FTRUNCATE", 55)
    ∷ ("IORING_OP_BIND", 56)
    ∷ ("IORING_OP_LISTEN", 57)
    ∷ ("IORING_OP_LAST", 58)
    ∷ []

-- `io_uring_msg_ring_flags`
abbrev pub msg_ring_codes : Constants
msg_ring_codes = ("IORING_MSG_DATA", 0) ∷ ("IORING_MSG_SEND_FD", 1) ∷ []

-- `io_uring_register_op`, but for the flag that is above them.
abbrev pub register_ops : Constants
register_ops =
    ("IORING_REGISTER_BUFFERS", 0)
    ∷ ("IORING_UNREGISTER_BUFFERS", 1)
    ∷ ("IORING_REGISTER_FILES", 2)
    ∷ ("IORING_UNREGISTER_FILES", 3)
    ∷ ("IORING_REGISTER_EVENTFD", 4)
    ∷ ("IORING_UNREGISTER_EVENTFD", 5)
    ∷ ("IORING_REGISTER_FILES_UPDATE", 6)
    ∷ ("IORING_REGISTER_EVENTFD_ASYNC", 7)
    ∷ ("IORING_REGISTER_PROBE", 8)
    ∷ ("IORING_REGISTER_PERSONALITY", 9)
    ∷ ("IORING_UNREGISTER_PERSONALITY", 10)
    ∷ ("IORING_REGISTER_RESTRICTIONS", 11)
    ∷ ("IORING_REGISTER_ENABLE_RINGS", 12)
    ∷ ("IORING_REGISTER_FILES2", 13)
    ∷ ("IORING_REGISTER_FILES_UPDATE2", 14)
    ∷ ("IORING_REGISTER_BUFFERS2", 15)
    ∷ ("IORING_REGISTER_BUFFERS_UPDATE", 16)
    ∷ ("IORING_REGISTER_IOWQ_AFF", 17)
    ∷ ("IORING_UNREGISTER_IOWQ_AFF", 18)
    ∷ ("IORING_REGISTER_IOWQ_MAX_WORKERS", 19)
    ∷ ("IORING_REGISTER_RING_FDS", 20)
    ∷ ("IORING_UNREGISTER_RING_FDS", 21)
    ∷ ("IORING_REGISTER_PBUF_RING", 22)
    ∷ ("IORING_UNREGISTER_PBUF_RING", 23)
    ∷ ("IORING_REGISTER_SYNC_CANCEL", 24)
    ∷ ("IORING_REGISTER_FILE_ALLOC_RANGE", 25)
    ∷ ("IORING_REGISTER_PBUF_STATUS", 26)
    ∷ ("IORING_REGISTER_NAPI", 27)
    ∷ ("IORING_UNREGISTER_NAPI", 28)
    ∷ ("IORING_REGISTER_CLOCK", 29)
    ∷ ("IORING_REGISTER_CLONE_BUFFERS", 30)
    ∷ ("IORING_REGISTER_LAST", 31)
    ∷ []

-- `io_uring_register_restriction_op`
abbrev pub restriction_ops : Constants
restriction_ops =
    ("IORING_RESTRICTION_REGISTER_OP", 0)
    ∷ ("IORING_RESTRICTION_SQE_OP", 1)
    ∷ ("IORING_RESTRICTION_SQE_FLAGS_ALLOWED", 2)
    ∷ ("IORING_RESTRICTION_SQE_FLAGS_REQUIRED", 3)
    ∷ ("IORING_RESTRICTION_LAST", 4)
    ∷ []

-- `io_uring_socket_op`
abbrev pub socket_ops : Constants
socket_ops =
    ("SOCKET_URING_OP_SIOCINQ", 0)
    ∷ ("SOCKET_URING_OP_SIOCOUTQ", 1)
    ∷ ("SOCKET_URING_OP_GETSOCKOPT", 2)
    ∷ ("SOCKET_URING_OP_SETSOCKOPT", 3)
    ∷ []

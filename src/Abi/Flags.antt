-- ===== src/Abi/Flags.antt =====
-- src/sys.rs: the constants of liburing that are flags and masks.
use Prim.Native.String.{String}
use uring_ws.Base.{ℕ, ◌^◌, [], ◌∷◌, map, u8}
use uring_ws.Abi.Numbered.{Constants}

-- The flags of `io_uring_setup`.
abbrev pub setup_flags : Constants
setup_flags =
    ("IORING_SETUP_IOPOLL", 1)
    ∷ ("IORING_SETUP_SQPOLL", 2)
    ∷ ("IORING_SETUP_SQ_AFF", 4)
    ∷ ("IORING_SETUP_CQSIZE", 8)
    ∷ ("IORING_SETUP_CLAMP", 16)
    ∷ ("IORING_SETUP_ATTACH_WQ", 32)
    ∷ ("IORING_SETUP_R_DISABLED", 64)
    ∷ ("IORING_SETUP_SUBMIT_ALL", 128)
    ∷ ("IORING_SETUP_COOP_TASKRUN", 256)
    ∷ ("IORING_SETUP_TASKRUN_FLAG", 512)
    ∷ ("IORING_SETUP_SQE128", 1024)
    ∷ ("IORING_SETUP_CQE32", 2048)
    ∷ ("IORING_SETUP_SINGLE_ISSUER", 4096)
    ∷ ("IORING_SETUP_DEFER_TASKRUN", 8192)
    ∷ ("IORING_SETUP_NO_MMAP", 16384)
    ∷ ("IORING_SETUP_REGISTERED_FD_ONLY", 32768)
    ∷ ("IORING_SETUP_NO_SQARRAY", 65536)
    ∷ []

-- The flags of the command entry, and of fsync.
abbrev pub uring_cmd_flags : Constants
uring_cmd_flags = ("IORING_URING_CMD_FIXED", 1) ∷ ("IORING_URING_CMD_MASK", 1) ∷ []

-- The flags of timeouts.
abbrev pub timeout_flags : Constants
timeout_flags =
    ("IORING_TIMEOUT_ABS", 1)
    ∷ ("IORING_TIMEOUT_UPDATE", 2)
    ∷ ("IORING_TIMEOUT_BOOTTIME", 4)
    ∷ ("IORING_TIMEOUT_REALTIME", 8)
    ∷ ("IORING_LINK_TIMEOUT_UPDATE", 16)
    ∷ ("IORING_TIMEOUT_ETIME_SUCCESS", 32)
    ∷ ("IORING_TIMEOUT_MULTISHOT", 64)
    ∷ []

-- The masks over them.
abbrev pub timeout_masks : Constants
timeout_masks = ("IORING_TIMEOUT_CLOCK_MASK", 12) ∷ ("IORING_TIMEOUT_UPDATE_MASK", 18) ∷ []

-- The flags of polling.
abbrev pub poll_flags : Constants
poll_flags =
    ("IORING_POLL_ADD_MULTI", 1)
    ∷ ("IORING_POLL_UPDATE_EVENTS", 2)
    ∷ ("IORING_POLL_UPDATE_USER_DATA", 4)
    ∷ ("IORING_POLL_ADD_LEVEL", 8)
    ∷ []

-- The flags of cancelling.
abbrev pub cancel_flags : Constants
cancel_flags =
    ("IORING_ASYNC_CANCEL_ALL", 1)
    ∷ ("IORING_ASYNC_CANCEL_FD", 2)
    ∷ ("IORING_ASYNC_CANCEL_ANY", 4)
    ∷ ("IORING_ASYNC_CANCEL_FD_FIXED", 8)
    ∷ ("IORING_ASYNC_CANCEL_USERDATA", 16)
    ∷ ("IORING_ASYNC_CANCEL_OP", 32)
    ∷ []

-- The flags of receives and sends, in `ioprio`.
abbrev pub recvsend_flags : Constants
recvsend_flags =
    ("IORING_RECVSEND_POLL_FIRST", 1)
    ∷ ("IORING_RECV_MULTISHOT", 2)
    ∷ ("IORING_RECVSEND_FIXED_BUF", 4)
    ∷ ("IORING_SEND_ZC_REPORT_USAGE", 8)
    ∷ ("IORING_RECVSEND_BUNDLE", 16)
    ∷ []

-- The flags of accepting.
abbrev pub accept_flags : Constants
accept_flags =
    ("IORING_ACCEPT_MULTISHOT", 1)
    ∷ ("IORING_ACCEPT_DONTWAIT", 2)
    ∷ ("IORING_ACCEPT_POLL_FIRST", 4)
    ∷ []

-- The flags of messages between rings.
abbrev pub msg_ring_flags : Constants
msg_ring_flags = ("IORING_MSG_RING_CQE_SKIP", 1) ∷ ("IORING_MSG_RING_FLAGS_PASS", 2) ∷ []

-- The flags of a completion.
abbrev pub cqe_flags : Constants
cqe_flags =
    ("IORING_CQE_F_BUFFER", 1)
    ∷ ("IORING_CQE_F_MORE", 2)
    ∷ ("IORING_CQE_F_SOCK_NONEMPTY", 4)
    ∷ ("IORING_CQE_F_NOTIF", 8)
    ∷ ("IORING_CQE_F_BUF_MORE", 16)
    ∷ []

-- Where the parts of a ring are mapped.
abbrev pub mmap_offsets : Constants
mmap_offsets =
    ("IORING_OFF_SQ_RING", 0)
    ∷ ("IORING_OFF_CQ_RING", 134217728)
    ∷ ("IORING_OFF_SQES", 268435456)
    ∷ ("IORING_OFF_PBUF_RING", 2147483648)
    ∷ ("IORING_OFF_PBUF_SHIFT", 16)
    ∷ ("IORING_OFF_MMAP_MASK", 4160749568)
    ∷ []

-- The flags of the submission queue.
abbrev pub sq_ring_flags : Constants
sq_ring_flags =
    ("IORING_SQ_NEED_WAKEUP", 1) ∷ ("IORING_SQ_CQ_OVERFLOW", 2) ∷ ("IORING_SQ_TASKRUN", 4) ∷ []

-- The flags of `io_uring_enter`.
abbrev pub enter_flags : Constants
enter_flags =
    ("IORING_ENTER_GETEVENTS", 1)
    ∷ ("IORING_ENTER_SQ_WAKEUP", 2)
    ∷ ("IORING_ENTER_SQ_WAIT", 4)
    ∷ ("IORING_ENTER_EXT_ARG", 8)
    ∷ ("IORING_ENTER_REGISTERED_RING", 16)
    ∷ ("IORING_ENTER_ABS_TIMER", 32)
    ∷ []

-- The features that the kernel reports.
abbrev pub features : Constants
features =
    ("IORING_FEAT_SINGLE_MMAP", 1)
    ∷ ("IORING_FEAT_NODROP", 2)
    ∷ ("IORING_FEAT_SUBMIT_STABLE", 4)
    ∷ ("IORING_FEAT_RW_CUR_POS", 8)
    ∷ ("IORING_FEAT_CUR_PERSONALITY", 16)
    ∷ ("IORING_FEAT_FAST_POLL", 32)
    ∷ ("IORING_FEAT_POLL_32BITS", 64)
    ∷ ("IORING_FEAT_SQPOLL_NONFIXED", 128)
    ∷ ("IORING_FEAT_EXT_ARG", 256)
    ∷ ("IORING_FEAT_NATIVE_WORKERS", 512)
    ∷ ("IORING_FEAT_RSRC_TAGS", 1024)
    ∷ ("IORING_FEAT_CQE_SKIP", 2048)
    ∷ ("IORING_FEAT_LINKED_FILE", 4096)
    ∷ ("IORING_FEAT_REG_REG_RING", 8192)
    ∷ ("IORING_FEAT_RECVSEND_BUNDLE", 16384)
    ∷ ("IORING_FEAT_MIN_TIMEOUT", 32768)
    ∷ []

-- The flags of an entry: `1 << BIT as u8`.
abbrev pub sqe_flags : Constants
sqe_flags =
    map (λ (c : String × ℕ). (c.0, u8 (2 ^ c.1)))
      (("IOSQE_FIXED_FILE", 0)
        ∷ ("IOSQE_IO_DRAIN", 1)
        ∷ ("IOSQE_IO_LINK", 2)
        ∷ ("IOSQE_IO_HARDLINK", 3)
        ∷ ("IOSQE_ASYNC", 4)
        ∷ ("IOSQE_BUFFER_SELECT", 5)
        ∷ ("IOSQE_CQE_SKIP_SUCCESS", 6)
        ∷ [])

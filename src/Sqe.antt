-- ===== src/Sqe.antt =====
-- src/op.rs, and `io_uring_sqe` of src/sys.rs: a submission entry and the functions that fill it.
-- A signed field (`fd`, the flags of a call) is its bit pattern; of a union the view that the crate
-- writes is kept, and a comment names the other views that it shares.
pub mod Prep
pub mod Files
use uring_ws.Base.{ℕ, ◌==◌, bit_and, bit_or, u8, u16, Result, ok, check, ◌>>◌, ◌>>=◌}

pub record Sqe : Type 0 where
  pub opcode : ℕ
  pub flags : ℕ
  pub ioprio : ℕ
  pub fd : ℕ
  -- `__bindgen_anon_1`
  pub off : ℕ
  -- `__bindgen_anon_2`
  pub addr : ℕ
  pub len : ℕ
  -- `__bindgen_anon_3`: `rw_flags`, `msg_flags`
  pub msg_flags : ℕ
  pub user_data : ℕ
  -- `__bindgen_anon_4`: `buf_index`, `buf_group`
  pub buf_group : ℕ
  pub personality : ℕ
  -- `__bindgen_anon_5`
  pub file_index : ℕ
  -- `__bindgen_anon_6`
  pub addr3 : ℕ
  pub pad2 : ℕ

abbrev pub op_read : ℕ
op_read = 22

abbrev pub op_write : ℕ
op_write = 23

abbrev pub op_send : ℕ
op_send = 26

abbrev pub op_recv : ℕ
op_recv = 27

-- `IORING_RECV_MULTISHOT`
abbrev pub recv_multishot_flag : ℕ
recv_multishot_flag = 2

-- `IOSQE_BUFFER_SELECT`, which is `1 << 5`.
abbrev pub buffer_select : ℕ
buffer_select = 32

-- ring.rs
unfoldable pub io_uring_initialize_sqe : Sqe → Sqe
io_uring_initialize_sqe sqe = record sqe {
  flags = 0;
  ioprio = 0;
  msg_flags = 0;
  buf_group = 0;
  personality = 0;
  file_index = 0;
  addr3 = 0;
  pad2 = 0;
}

-- ring.rs
unfoldable pub io_uring_sqe_set_data : ℕ → Sqe → Sqe
io_uring_sqe_set_data user_data sqe = record sqe { user_data = user_data }

unfoldable pub read_at : (fd ptr len offset : ℕ) → Sqe → Sqe
read_at fd ptr len offset sqe = record sqe {
  opcode = u8 op_read;
  fd = fd;
  off = offset;
  addr = ptr;
  len = len;
}

unfoldable pub recv : (fd ptr len flags : ℕ) → Sqe → Sqe
recv fd ptr len flags sqe = record sqe {
  opcode = u8 op_recv;
  fd = fd;
  addr = ptr;
  msg_flags = flags;
  len = len;
}

unfoldable pub write_at : (fd ptr len offset : ℕ) → Sqe → Sqe
write_at fd ptr len offset sqe = record sqe {
  opcode = u8 op_write;
  fd = fd;
  off = offset;
  addr = ptr;
  len = len;
}

unfoldable pub send : (fd ptr len flags : ℕ) → Sqe → Sqe
send fd ptr len flags sqe = record sqe {
  opcode = u8 op_send;
  fd = fd;
  addr = ptr;
  msg_flags = flags;
  len = len;
}

-- `msg_waitall` is `MSG_WAITALL` of the libc crate.
unfoldable pub multishot_recv : (msg_waitall fd flags buf_group : ℕ) → Sqe → Result Sqe
multishot_recv msg_waitall fd flags buf_group sqe = do
  check (bit_and flags msg_waitall == 0)
  ok (record sqe {
    opcode = u8 op_recv;
    fd = fd;
    msg_flags = flags;
    ioprio = u16 recv_multishot_flag;
    buf_group = u16 buf_group;
    flags = bit_or sqe.flags buffer_select;
  })

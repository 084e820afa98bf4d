-- ===== src/Sqe/Prep.antt =====
-- src/op.rs: what a prepared entry holds, whatever its slot held before.
use uring_ws.Base.{ℕ, ◌≡◌, refl}
use uring_ws.Sqe.{Sqe, io_uring_initialize_sqe, io_uring_sqe_set_data, send}

-- The fields of a slot that no function of op.rs for sockets writes, or that `multishot_recv` leaves.
pub record Leftover : Type 0 where
  pub off : ℕ
  pub addr : ℕ
  pub len : ℕ

abbrev pub leftover : Sqe → Leftover
leftover s = record { off = s.off; addr = s.addr; len = s.len }

-- An entry prepared for a send depends on its slot's former content in the unused offset alone.
pub send_overwrites :
    (fd ptr len flags user_data : ℕ) (s : Sqe)
    → io_uring_sqe_set_data user_data (send fd ptr len flags (io_uring_initialize_sqe s)) ≡ record {
      opcode = 26;
      flags = 0;
      ioprio = 0;
      fd = fd;
      off = s.off;
      addr = ptr;
      len = len;
      msg_flags = flags;
      user_data = user_data;
      buf_group = 0;
      personality = 0;
      file_index = 0;
      addr3 = 0;
      pad2 = 0;
    }
unfolding io_uring_initialize_sqe io_uring_sqe_set_data send
send_overwrites fd ptr len flags user_data s = refl

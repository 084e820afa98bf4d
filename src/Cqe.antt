-- ===== src/Cqe.antt =====
-- src/cqe.rs: a completion of the kernel, and the buffer that comes with it.
pub mod Event
use uring_ws.Base.{
  ℕ, ◌^◌, bit_and, ◌>>>◌, u16, ltb, leb, ◌==◌, if◌then◌else◌, Bool, Option, some, none, Result, ok,
  panic, check, or_panic, ◌>>=◌, ◌>>◌, os_error, assertion_failed, abs_i32,
}
use uring_ws.UserData.{owner_of}
use uring_ws.Memory.{Memory}
use uring_ws.BufRing.{BufRingPool, KernelBuffer, get_read_buf}

-- `io_uring_cqe`; `res` is the bit pattern of an i32.
pub record Cqe : Type 0 where
  pub user_data : ℕ
  pub res : ℕ
  pub flags : ℕ

abbrev pub cqe_f_buffer : ℕ
cqe_f_buffer = 1

abbrev pub cqe_f_buf_more : ℕ
cqe_f_buf_more = 16

abbrev pub cqe_buffer_shift : ℕ
cqe_buffer_shift = 16

-- The entry that `ptr` leads to stays in place until the completion queue is advanced.
pub record Completion : Type 0 where
  pub cqe : Cqe
  pub kernel_buf : Option KernelBuffer
  pub user_data : ℕ

-- `x < 0` of an i32 by its bit pattern.
abbrev pub is_negative : ℕ → Bool
is_negative x = leb (2 ^ 31) x

-- The part of `from_raw_event` for `IORING_CQE_F_BUFFER`.
unfoldable pub attached_buf : BufRingPool → Memory → Cqe → Result (Option KernelBuffer)
attached_buf pool mem cqe = do
  let data_len = cqe.res
  check (ltb 0 data_len)
  let buffer_id = u16 (cqe.flags >>> cqe_buffer_shift)
  let buffer_group_id = owner_of cqe.user_data
  kernel_buf ← get_read_buf pool mem buffer_group_id buffer_id data_len
  check (kernel_buf.bid == buffer_id)
  ok (some kernel_buf)

-- `none` is a null pointer.
unfoldable pub from_raw_event : BufRingPool → Memory → Option Cqe → Result Completion
from_raw_event pool mem ptr = do
  cqe ← or_panic assertion_failed ptr
  errno ← if is_negative cqe.res then abs_i32 cqe.res else ok 0
  if is_negative cqe.res then panic (os_error errno) else ok tt
  check (bit_and cqe.flags cqe_f_buf_more == 0)
  kernel_buf ← if bit_and cqe.flags cqe_f_buffer == 0 then ok none else attached_buf pool mem cqe
  ok (record { cqe = cqe; kernel_buf = kernel_buf; user_data = cqe.user_data })

unfoldable pub take_kernel_buf : Completion → Option KernelBuffer × Completion
take_kernel_buf c = (c.kernel_buf, record c { kernel_buf = none })

-- `Drop for Completion`: a buffer that nobody has taken is a panic.
unfoldable pub drop_completion : Completion → Result (Unit {0})
drop_completion c = elim c.kernel_buf [ none ↦ ok tt | some _ ↦ panic assertion_failed ]

-- ===== src/Memory.antt =====
-- The memory that the crate shares with the kernel: the buffer rings (`io_uring_buf_ring` of
-- src/sys.rs) by their addresses, and the bytes of the buffers.
use uring_ws.Base.{ℕ, ◌==◌, if◌then◌else◌, Option, some, List, Result, panic, undefined, or_panic}

-- `io_uring_buf`
pub record IoBuf : Type 0 where
  pub addr : ℕ
  pub len : ℕ
  pub bid : ℕ
  pub resv : ℕ

-- `io_uring_buf_ring` is a union: an array of entries, and a header whose `tail` lies over the
-- `resv` of the first of them (byte 14 of both).
abbrev pub BufRing : Type 0
BufRing = List IoBuf

pub record Memory : Type 0 where
  pub rings : ℕ → Option BufRing
  pub bytes : ℕ → ℕ

-- `&mut *ptr`
abbrev pub deref : Memory → ℕ → Result BufRing
deref mem ptr = if ptr == 0 then panic undefined else or_panic undefined (mem.rings ptr)

abbrev pub store : Memory → ℕ → BufRing → Memory
store mem ptr ring = record mem { rings = λ p. if p == ptr then some ring else mem.rings p }

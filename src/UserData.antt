-- ===== src/UserData.antt =====
-- src/lib.rs: the `user_data` word of a submission, which comes back with its completion, and the
-- constants of the crate.
pub mod Fields
use uring_ws.Base.{
  ℕ, ◌^◌, bit_and, bit_or, ◌<<<◌, ◌>>>◌, u8, u16, u32, u64, ◌==◌, if◌then◌else◌, Result, ok, panic,
  Panic,
}

abbrev pub max_buffer_group : ℕ
max_buffer_group = 256

abbrev pub cq_entries : ℕ
cq_entries = 1024

-- Bytes of one buffer.
abbrev pub buf_size : ℕ
buf_size = 1500

-- Buffers of one group, `2u16.pow(10)`.
abbrev pub ring_pool_size : ℕ
ring_pool_size = 2 ^ 10

abbrev pub cqe_wait_nr : ℕ
cqe_wait_nr = 1

pub data Event : Type 0 where
  send multishort_recv : Event

-- `Event as u8`.
unfoldable pub event_code : Event → ℕ
event_code send = 0
event_code multishort_recv = 1

unfoldable pub event_from_u8 : ℕ → Result Event
event_from_u8 v =
    if v == 0 then ok send else if v == 1 then ok multishort_recv else panic Panic.unknown_event

-- A `UserData` is its word.
unfoldable pub from_parts : ℕ → ℕ → ℕ → ℕ
from_parts event owner req =
    let packed_event = bit_or 0 (u64 (event <<< 56)) in
    let packed_owner = bit_or packed_event (u64 (owner <<< 40)) in bit_or packed_owner req

unfoldable pub event_of : ℕ → ℕ
event_of d = u8 (d >>> 56)

unfoldable pub owner_of : ℕ → ℕ
owner_of d = u16 (bit_and (d >>> 40) 0xFFFF)

unfoldable pub req_of : ℕ → ℕ
req_of d = u32 (bit_and d 0xFFFFFFFF)

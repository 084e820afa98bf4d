-- ===== src/Tests/Words.antt =====
-- The words of src/lib.rs and the completions of src/cqe.rs.
use uring_ws.Base.{
  ◌-◌, ◌^◌, ◌<◌, ◌≡◌, refl, arith, some, none, [], ok, panic, os_error, overflow, ◌⊎◌,
}
use uring_ws.UserData.{from_parts, event_of, owner_of, req_of}
use uring_ws.UserData.Fields.{from_parts_fields}
use uring_ws.Memory.{Memory}
use uring_ws.BufRing.{BufRingPool}
use uring_ws.Cqe.{Cqe, Completion, from_raw_event}
use uring_ws.Cqe.Event.{Accepted, from_raw_event_error, from_raw_event-Accepted}

-- Event 1 of owner 2, request 1202.
recv_word : from_parts 1 2 1202 ≡ 0x01_0002_00_0000_04b2
unfolding from_parts
recv_word = refl

from_parts_fields_example :
    (event_of (from_parts 1 2 1202) ≡ 1)
    × (owner_of (from_parts 1 2 1202) ≡ 2)
    × (req_of (from_parts 1 2 1202) ≡ 1202)
    × (from_parts 1 2 1202 < 2 ^ 64)
from_parts_fields_example = from_parts_fields 1 2 1202 (omega arith) (omega arith) (omega arith)

abbrev no_pool : BufRingPool
no_pool = record { buf_ring_ptrs = [] }

abbrev no_memory : Memory
no_memory = record { rings = λ p. none; bytes = λ a. 0 }

-- ECONNRESET, and a send of 42 bytes.
abbrev reset : Cqe
reset = record { user_data = 0; res = 2 ^ 32 - 104; flags = 0 }

abbrev sent : Cqe
sent = record { user_data = 1000; res = 42; flags = 0 }

abbrev sent_completion : Completion
sent_completion = record { cqe = sent; kernel_buf = none; user_data = 1000 }

from_raw_event_error_example :
    ((reset.res ≡ 2 ^ 31) × (from_raw_event no_pool no_memory (some reset) ≡ panic overflow))
    ⊎ ((2 ^ 31 < reset.res)
        × (from_raw_event no_pool no_memory (some reset) ≡ panic (os_error 104)))
from_raw_event_error_example =
    from_raw_event_error no_pool no_memory reset (omega arith) (omega arith)

accepts_sent : from_raw_event no_pool no_memory (some sent) ≡ ok sent_completion
unfolding from_raw_event
accepts_sent = refl

from_raw_event-Accepted_example : Accepted sent sent_completion
from_raw_event-Accepted_example =
    from_raw_event-Accepted no_pool no_memory sent sent_completion accepts_sent

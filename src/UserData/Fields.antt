-- ===== src/UserData/Fields.antt =====
-- src/lib.rs: what the three fields of `UserData` keep.
use uring_ws.Base.{
  ℕ, ◌+◌, ◌*◌, ◌/◌, ◌%◌, ◌^◌, ◌<◌, ◌≡◌, arith, bit_or_fields, bit_and_mask, zero-bit_or,
}
use uring_ws.UserData.{from_parts, event_of, owner_of, req_of}

-- The word of three fields that fit their widths, as a sum.
pub from_parts_as_sum :
    (event owner req : ℕ)
    → event < 2 ^ 8
    → owner < 2 ^ 16
    → req < 2 ^ 32
    → from_parts event owner req ≡ event * 2 ^ 56 + owner * 2 ^ 40 + req
unfolding from_parts
from_parts_as_sum event owner req he ho hr = ground (
  arith,
  zero-bit_or (event * 2 ^ 56 % 2 ^ 64),
  bit_or_fields 56 event (owner * 2 ^ 40),
  bit_or_fields 40 (event * 2 ^ 16 + owner) req,
)

-- The three fields that are packed come back, each unchanged by the others, and the word fits a u64.
pub from_parts_fields :
    (event owner req : ℕ)
    → event < 2 ^ 8
    → owner < 2 ^ 16
    → req < 2 ^ 32
    → (event_of (from_parts event owner req) ≡ event)
      × (owner_of (from_parts event owner req) ≡ owner)
      × (req_of (from_parts event owner req) ≡ req)
      × (from_parts event owner req < 2 ^ 64)
unfolding event_of owner_of req_of
from_parts_fields event owner req he ho hr =
    let sum = from_parts_as_sum event owner req he ho hr in
    omega (
      arith,
      sum,
      bit_and_mask 16 (from_parts event owner req / 2 ^ 40),
      bit_and_mask 32 (from_parts event owner req),
    )

-- ===== src/Tests/Bytes.antt =====
-- The bytes of a ring of two entries at the wrap of its tail.
use uring_ws.Base.{
  ℕ, ◌+◌, ◌*◌, ◌^◌, ◌-◌, ◌<◌, ◌≡◌, refl, arith, bit_and, u16, some, [], ◌∷◌, ◌++◌, ok,
}
use uring_ws.Memory.{BufRing}
use uring_ws.BufRing.{tail_of, io_uring_buf_ring_add, io_uring_buf_ring_advance}
use uring_ws.BufRing.Bytes.{le_bytes, write_from, ring_bytes, word_from, add_advance_bytes}
use uring_ws.Abi.{struct, placed, offset_of}
use uring_ws.Abi.Buffers.{io_uring_buf, io_uring_buf_fields, io_uring_buf_ring_ty_1_ty_1_fields}

abbrev full : BufRing
full =
    record { addr = 4096; len = 1500; bid = 0; resv = 2 ^ 16 - 1 }
    ∷ record { addr = 5596; len = 9; bid = 7; resv = 3 }
    ∷ []

abbrev refilled : BufRing
refilled =
    record { addr = 4096; len = 1500; bid = 0; resv = 2 ^ 16 - 1 }
    ∷ record { addr = 7096; len = 1500; bid = 1; resv = 3 }
    ∷ []

refills : io_uring_buf_ring_add full 7096 1500 1 1 0 ≡ ok refilled
unfolding io_uring_buf_ring_add tail_of
refills = refl

small : tail_of full < 2 ^ 16
unfolding tail_of
small = omega arith

add_advance_bytes_example :
    (tail_at : ℕ) × (offset_of "tail" (placed struct io_uring_buf_ring_ty_1_ty_1_fields)
      ≡ some tail_at)
    × (offset_of "resv" (placed struct io_uring_buf_fields) ≡ some tail_at)
    × (word_from tail_at (ring_bytes full) ≡ tail_of full)
    × (ring_bytes refilled
        ≡ write_from
            (bit_and (tail_of full + 0) 1 * io_uring_buf.size)
            (le_bytes 8 7096 ++ le_bytes 4 1500 ++ le_bytes 2 1)
            (ring_bytes full))
    × (ring_bytes (io_uring_buf_ring_advance refilled 1)
        ≡ write_from tail_at (le_bytes 2 (u16 (tail_of refilled + 1))) (ring_bytes refilled))
add_advance_bytes_example = add_advance_bytes full refilled 7096 1500 1 1 0 1 small refills
